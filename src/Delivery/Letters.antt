-- ===== src/Delivery/Letters.antt =====
-- The messages of an application, on their way to another one: as they are built and enqueued, as bytes,
-- and as the trampolines hear of them.
use mathlib.Core.List.{append_assoc}
use substance_3d_connector.Base.{
  ℕ, suc, ◌+◌, ◌^◌, ◌<◌, ◌≡◌, ◌>>=◌, refl, ap, subst, arith, true, List, [], ◌∷◌, ◌++◌, append_nil,
  Option, some, length, u32,
}
use substance_3d_connector.Uuid.{Uuid}
use substance_3d_connector.Message.{Header, Message, build_message, message_identifier}
use substance_3d_connector.LockedQueue.Chain.{Holds, Apart}
use substance_3d_connector.MessageQueue.{Queues, enqueue_outbound}
use substance_3d_connector.MessageQueue.Fifo.{enqueue_message_refines}
use substance_3d_connector.Wire.{Fits, Platform}
use substance_3d_connector.Wire.Roundtrip.{NoZero}
use substance_3d_connector.Trampolines.{Call, calls}
use substance_3d_connector.Dispatch.Handling.{all_calls, all_replies, all_named, Texts}
use substance_3d_connector.Contexts.Types.{State}
use substance_3d_connector.Delivery.Channel.{packet_of}

-- A call that writes a text of a type, with the node that the allocator gives its message.
pub record Letter : Type 0 where
  pub node : ℕ
  pub type : Uuid
  pub text : List ℕ

-- The elements of an identifier are of 32 bits.
pub record FitsUuid (u : Uuid) : Type 0 where
  pub e0 : u.e0 < 2 ^ 32
  pub e1 : u.e1 < 2 ^ 32
  pub e2 : u.e2 < 2 ^ 32
  pub e3 : u.e3 < 2 ^ 32

-- The header and the message that the library builds.
abbrev pub built_header : Uuid → List ℕ → Header
built_header id text = record {
  description = message_identifier;
  message_length = u32 (length text);
  message_id = id;
}

abbrev pub built : ℕ → Uuid → List ℕ → Message
built context id text = record {
  header = built_header id text;
  message = some text;
  context = context;
}

pub built_header-Fits : (id : Uuid) (text : List ℕ) → FitsUuid id → Fits (built_header id text)
built_header-Fits id text f = record {
  description = omega arith;
  message_length = omega arith;
  e0 = f.e0;
  e1 = f.e1;
  e2 = f.e2;
  e3 = f.e3;
}

-- What the calls need: elements of 32 bits, and a text of C that is not too long.
pub record IsPlain (l : Letter) : Type 0 where
  pub uuid : FitsUuid l.type
  pub short : length l.text + 1 < 2 ^ 32
  pub no_zero : NoZero l.text

abbrev pub AllPlain : List Letter → Type 0
AllPlain [] = Unit
AllPlain (l ∷ ls) = IsPlain l × AllPlain ls

-- The messages for a context, with their nodes and without them.
abbrev pub cells : ℕ → List Letter → List (ℕ × Message)
cells context [] = []
cells context (l ∷ ls) = (l.node, built context l.type l.text) ∷ cells context ls

abbrev pub messages : ℕ → List Letter → List Message
messages context [] = []
messages context (l ∷ ls) = built context l.type l.text ∷ messages context ls

abbrev pub packets : Platform → List Letter → List ℕ
packets p [] = []
packets p (l ∷ ls) = packet_of p (built_header l.type l.text) l.text ++ packets p ls

-- What trampolines hear of the messages for a context.
abbrev pub heard : List ℕ → ℕ → List Letter → List Call
heard ts context [] = []
heard ts context (l ∷ ls) = calls context l.type l.text ts ++ heard ts context ls

-- The calls of `substance_connector_write_message`, each with a node of its own.
unfoldable pub post_all : ℕ → List Letter → Queues → Option Queues
post_all context [] q = some q
post_all context (l ∷ ls) q = do
  m ← build_message true context (some l.type) (some l.text)
  q' ← enqueue_outbound l.node m q
  post_all context ls q'

-- The allocator gives each message a node that the queue does not use.
abbrev pub Unused : ℕ → List Letter → List (ℕ × Message) → Type 0
Unused context [] xs = Unit
Unused context (l ∷ ls) xs =
    Apart l.node xs × Unused context ls (xs ++ ((l.node, built context l.type l.text) ∷ []))

enqueue_outbound-one :
    (q : Queues) (xs : List (ℕ × Message)) (node : ℕ) (m : Message)
    → Holds q.heap q.outbound xs
    → Apart node xs
    → (q' : Queues) × (enqueue_outbound node m q ≡ some q')
      × Holds q'.heap q'.outbound (xs ++ ((node, m) ∷ []))
unfolding enqueue_outbound
enqueue_outbound-one q xs node m holds apart =
    let (h, out, done, more) = enqueue_message_refines q.heap q.outbound xs node m holds apart in
    (record q { heap = h; outbound = out }, rw done refl, more)

-- The messages stand in the outbound queue in the order of the calls.
pub post_all-cells :
    (context : ℕ) (ls : List Letter) (q : Queues) (xs : List (ℕ × Message))
    → Holds q.heap q.outbound xs
    → Unused context ls xs
    → (q' : Queues) × (post_all context ls q ≡ some q')
      × Holds q'.heap q'.outbound (xs ++ cells context ls)
unfolding post_all build_message
post_all-cells context [] q xs holds unused = (q, refl, rw (append_nil xs) holds)
post_all-cells context (l ∷ ls) q xs holds (apart, unused) =
    let m = built context l.type l.text in
    let (q1, one, more) = enqueue_outbound-one q xs l.node m holds apart in
    let (q', rest, all) = post_all-cells context ls q1 (xs ++ ((l.node, m) ∷ [])) more unused in
    (
      q',
      rw one rest,
      subst (λ ys. Holds q'.heap q'.outbound ys)
          (append_assoc xs ((l.node, m) ∷ []) (cells context ls)) all,
    )

-- Messages of an application are heard by each trampoline, are not answered, and name no context.
pub all_calls-heard :
    (ts : List ℕ) (context : ℕ) (ls : List Letter)
    → all_calls ts (messages context ls) ≡ heard ts context ls
all_calls-heard ts context [] = refl
all_calls-heard ts context (l ∷ ls) =
    ap (λ cs. calls context l.type l.text ts ++ cs) (all_calls-heard ts context ls)

pub all_replies-messages :
    (name : Option (List ℕ)) (context : ℕ) (ls : List Letter)
    → all_replies name (messages context ls) ≡ []
all_replies-messages name context [] = refl
all_replies-messages name context (l ∷ ls) = all_replies-messages name context ls

pub all_named-messages :
    {V : Type 0} (context : ℕ) (ls : List Letter) (s : State V)
    → all_named (messages context ls) s ≡ s
all_named-messages context [] s = refl
all_named-messages context (l ∷ ls) s = all_named-messages context ls s

pub messages-Texts : (context : ℕ) (ls : List Letter) → Texts (messages context ls)
messages-Texts context [] = tt
messages-Texts context (l ∷ ls) = ((l.text, refl), messages-Texts context ls)

pub length-messages : (context : ℕ) (ls : List Letter) → length (messages context ls) ≡ length ls
length-messages context [] = refl
length-messages context (l ∷ ls) = ap suc (length-messages context ls)

pub length-cells : (context : ℕ) (ls : List Letter) → length (cells context ls) ≡ length ls
length-cells context [] = refl
length-cells context (l ∷ ls) = ap suc (length-cells context ls)
