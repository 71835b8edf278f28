-- ===== src/ReadThread/Select.antt =====
-- The variant of `connector_poll_contexts` in core/src/details/connection_utils.c for a build that uses
-- select. What a call of select gives is an input; a descriptor of -1 is in no set.
use substance_3d_connector.Base.{
  ℕ, zero, suc, ◌==◌, ◌≡◌, refl, Bool, true, false, if◌then◌else◌, List, [], ◌∷◌, Option, none,
  some, bit_or,
}
use substance_3d_connector.ReadThread.{Poll, poll_in}
use substance_3d_connector.ReadThread.Events.{PollCode, Outcome, poll_err, convert_network_error}

-- A call of select: its result, and the descriptors that it leaves in the sets to read and of errors.
pub record Selected : Type 0 where
  pub outcome : Outcome
  pub readable : List ℕ
  pub excepted : List ℕ

-- FD_ISSET
abbrev is_set : Option ℕ → List ℕ → Bool
is_set none set = false
is_set (some fd) [] = false
is_set (some fd) (f ∷ set) = if fd == f then true else is_set (some fd) set

-- The flags are added to those that the structure has.
abbrev add_flag : Bool → ℕ → Poll → Poll
add_flag found flag p = if found then record p { revents = bit_or p.revents flag } else p

-- The loop over the structures.
unfoldable add_flags : ℕ → Selected → List Poll → List Poll
add_flags zero s polls = polls
add_flags (suc n) s [] = []
add_flags (suc n) s (p ∷ polls) =
    add_flag (is_set p.fd s.excepted) poll_err (add_flag (is_set p.fd s.readable) poll_in p)
    ∷ add_flags n s polls

-- What follows the call, for the number of contexts.
abbrev selected : Outcome → ℕ → Selected → List Poll → PollCode × List Poll
selected (Outcome.failed errno) n s polls = (convert_network_error errno, polls)
selected Outcome.nothing n s polls = (PollCode.timeout, polls)
selected Outcome.ready n s polls = (PollCode.eunknown, add_flags n s polls)

-- `connector_poll_contexts`; select is not called for no context.
unfoldable select_contexts : List Poll → ℕ → Selected → PollCode × List Poll
unfolding add_flags
select_contexts polls zero s = (PollCode.eunknown, polls)
select_contexts polls (suc n) s = selected s.outcome (suc n) s polls

-- Unlike the variant on poll this one reports a success in no case.
abbrev is_esuccess : PollCode → Bool
is_esuccess PollCode.esuccess = true
is_esuccess _ = false

selected-unsuccessful :
    (o : Outcome) (n : ℕ) (s : Selected) (polls : List Poll)
    → is_esuccess (selected o n s polls).0 ≡ false
selected-unsuccessful (Outcome.failed errno) n s polls = refl
selected-unsuccessful Outcome.nothing n s polls = refl
selected-unsuccessful Outcome.ready n s polls = refl

select_contexts-unsuccessful :
    (polls : List Poll) (n : ℕ) (s : Selected) → is_esuccess (select_contexts polls n s).0 ≡ false
unfolding select_contexts
select_contexts-unsuccessful polls zero s = refl
select_contexts-unsuccessful polls (suc n) s = selected-unsuccessful s.outcome (suc n) s polls
