-- ===== src/UintQueue/Threads/Moves.antt =====
-- One access keeps the invariant.
use mathlib.Core.Logic.{if_pos, if_neg}
use native.Mathlib.Nat.{add-mod_right, mod-lt}
use substance_3d_connector.Base.{
  ℕ, ◌-◌, ◌%◌, ◌^◌, ◌≤◌, ◌<◌, ◌≡◌, ◌≢◌, refl, ◌⊎◌, true, false, [], ◌∷◌, none, some, length, get_or,
  ℕ_discrete, arith, get_or-append_lt, get_or-append_length, length-append, length-set,
  get_or-set_ne, get_or-set_self, take-suc, take-append_le,
}
use substance_3d_connector.UintQueue.{
  Pc, push_start, push_read, push_claim, push_store, push_commit, pop_start, pop_read, pop_fetch,
  pop_claim,
}
use substance_3d_connector.UintQueue.Inv.{add-mod-ne}
use substance_3d_connector.UintQueue.Threads.Defs.{
  Shared, System, update, returned, advance, ticket, entry, Local, IsSound, Inv, Step, begin, move,
}

-- What an access by a thread at `p` leaves to the others.
record Grows (p : Pc) (s s' : Shared) : Type 0 where
  write_on : s.write_index ≤ s'.write_index
  read_on : s.read_index ≤ s'.read_index
  max_on : s.max_index ≤ s'.max_index
  same : s'.size ≡ s.size
  kept : (t : ℕ) → t < s.write_index → get_or s'.pushed t 0 ≡ get_or s.pushed t 0
  apart :
      (t : ℕ)
      → s.max_index ≤ t
      → t < s.write_index
      → ticket p ≢ some t
      → (s'.max_index ≤ t) × (get_or s'.array (t % s.size) 0 ≡ get_or s.array (t % s.size) 0)

-- The locals of a thread that did not move stay right.
Local-Grows :
    {p : Pc} {s s' : Shared}
    → IsSound s
    → Grows p s s'
    → (o : Pc) → Local s o
    → ((t : ℕ) → ticket p ≡ some t → ticket o ≢ some t)
    → Local s' o
Local-Grows v g (push_read e w) l d = omega arith
Local-Grows v g (push_claim e w r) l d = ground (arith)
Local-Grows v g (push_store e w) l d = ground (arith, g.kept w, g.apart w, d w)
Local-Grows v g (push_commit w) l d = ground (arith, g.kept w, g.apart w, d w)
Local-Grows v g (pop_read r) l d = omega arith
Local-Grows v g (pop_fetch r m) l d = ground (arith)
Local-Grows v g (pop_claim r value) l d = ground (arith, g.kept r)
Local-Grows v g o l d = tt

module _ {s : Shared} (v : IsSound s) where
  open v use {written, taken, behind, ahead, room, storage, stored, prefix}

  -- What each access does to the shared state, as the other threads see it.
  advance-Grows :
      (p : Pc) → Local s p → length (advance p s).1.pushed < 2 ^ 32 → Grows p s (advance p s).1
  unfolding advance
  advance-Grows (push_claim e w r) l h = record {
    write_on = ground (arith, length-append s.pushed (e ∷ []));
    read_on = ground arith;
    max_on = ground arith;
    same = ground arith;
    kept = λ t b. ground (arith, get_or-append_lt s.pushed (e ∷ []) t 0);
    apart = λ t a b n. ground arith;
  }
  advance-Grows (push_store e w) l h = record {
    write_on = ground arith;
    read_on = ground arith;
    max_on = ground arith;
    same = ground arith;
    kept = λ t b. ground arith;
    apart = λ t a b n. ground (
      arith,
      get_or-set_ne s.array (w % s.size) (t % s.size) e 0,
      add-mod-ne w (t - w) s.size,
      add-mod-ne t (w - t) s.size,
    );
  }
  advance-Grows p l h = record {
    write_on = ground arith;
    read_on = ground arith;
    max_on = ground arith;
    same = ground arith;
    kept = λ t b. ground arith;
    apart = λ t a b n. ground arith;
  }

  advance-IsSound :
      (p : Pc)
      → returned p ≡ false
      → Local s p
      → length (advance p s).1.pushed < 2 ^ 32
      → IsSound (advance p s).1
  unfolding advance
  advance-IsSound (push_claim e w r) a l h = record {
    written = ground (arith, length-append s.pushed (e ∷ []));
    taken = ground arith;
    behind = ground arith;
    ahead = ground (arith, length-append s.pushed (e ∷ []));
    room = ground (arith, add-mod_right r s.size, length-append s.pushed (e ∷ []));
    storage = ground arith;
    stored = λ t x y. ground (arith, stored t, get_or-append_lt s.pushed (e ∷ []) t 0);
    prefix = ground (arith, take-append_le s.read_index s.pushed (e ∷ []));
  }
  advance-IsSound (push_store e w) a l h = record {
    written = ground arith;
    taken = ground arith;
    behind = ground arith;
    ahead = ground arith;
    room = ground arith;
    storage = ground (arith, length-set s.array (w % s.size) e);
    stored = λ t x y. ground (
      arith,
      stored t,
      get_or-set_ne s.array (w % s.size) (t % s.size) e 0,
      add-mod-ne t (w - t) s.size,
    );
    prefix = ground arith;
  }
  advance-IsSound (pop_claim r value) a l h = record {
    written = ground arith;
    taken = ground (arith, length-append s.popped (value ∷ []));
    behind = ground arith;
    ahead = ground arith;
    room = ground arith;
    storage = ground arith;
    stored = λ t x y. ground (arith, stored t);
    prefix = ground (arith, take-suc s.read_index s.pushed 0);
  }
  advance-IsSound p a l h = record {
    written = ground arith;
    taken = ground arith;
    behind = ground arith;
    ahead = ground arith;
    room = ground arith;
    storage = ground arith;
    stored = λ t x y. ground (arith, stored t);
    prefix = ground arith;
  }

  advance-Local :
      (p : Pc)
      → Local s p
      → length (advance p s).1.pushed < 2 ^ 32
      → Local (advance p s).1 (advance p s).0
  unfolding advance
  advance-Local (push_claim e w r) l h =
      ground (arith, length-append s.pushed (e ∷ []), get_or-append_length s.pushed e w 0)
  advance-Local (push_store e w) l h =
      ground (arith, get_or-set_self s.array (w % s.size) e 0, mod-lt w {m = s.size})
  advance-Local (pop_fetch r m) l h = ground (arith, stored r)
  advance-Local p l h = ground arith

  ticket-advance :
      (p : Pc)
      → Local s p
      → (t : ℕ) → ticket (advance p s).0 ≡ some t
      → (ticket p ≡ some t) ⊎ ((t ≡ s.write_index) × (ticket p ≡ none))
  unfolding advance
  ticket-advance (push_claim e w r) l t e' = ground arith
  ticket-advance p l t e' = ground arith

-- A claim is the only access that adds to the pushed history.
pushed-advance : (s : Shared) (p : Pc) → length s.pushed ≤ length (advance p s).1.pushed
unfolding advance
pushed-advance s (push_claim e w r) = ground (arith, length-append s.pushed (e ∷ []))
pushed-advance s p = ground arith

size-advance : (s : Shared) (p : Pc) → (advance p s).1.size ≡ s.size
unfolding advance
size-advance s (push_claim e w r) = ground arith
size-advance s p = ground arith

pub Step-pushed : {s t : System} → Step s t → length s.shared.pushed ≤ length t.shared.pushed
Step-pushed (begin i p r e) = omega arith
Step-pushed {s} (move i r) = pushed-advance s.shared (s.pc i)

pub Step-size : {s t : System} → Step s t → t.shared.size ≡ s.shared.size
Step-size (begin i p r e) = refl
Step-size {s} (move i r) = size-advance s.shared (s.pc i)

update-elim {ℓ} :
    (P : Pc → Type ℓ) (f : ℕ → Pc) (i : ℕ) (p : Pc) (j : ℕ)
    → P p
    → (i ≢ j → P (f j))
    → P (update f i p j)
update-elim P f i p j here there = elim (ℕ_discrete i j) [
  | yes e ↦ rw (if_pos (ℕ_discrete i j) e) here
  | no n ↦ rw (if_neg (ℕ_discrete i j) n) (there n)
]

entry-Local : (s : Shared) (p : Pc) → entry p ≡ true → Local s p
entry-Local s (push_start e) h = tt
entry-Local s pop_start h = tt
entry-Local s p h = cc

entry-ticket : (p : Pc) → entry p ≡ true → ticket p ≡ none
entry-ticket (push_start e) h = refl
entry-ticket p h = ground arith

ticket-lt : (s : Shared) (p : Pc) (t : ℕ) → Local s p → ticket p ≡ some t → t < s.write_index
ticket-lt s (push_store e w) t l h = ground arith
ticket-lt s p t l h = ground arith

-- A step, under a bound on the pushes that have claimed a ticket, keeps the invariant.
pub Step-Inv : {s t : System} → Step s t → length t.shared.pushed < 2 ^ 32 → Inv s → Inv t
Step-Inv {s} (begin i p r e) h inv = record {
  sound = inv.sound;
  local =
      λ j. update-elim (Local s.shared) s.pc i p j (entry-Local s.shared p e) (λ n. inv.local j);
  single = λ j k t a b. ground (arith, entry-ticket p e, inv.single j k t);
}
Step-Inv {s} (move i r) h inv = record {
  sound = advance-IsSound inv.sound (s.pc i) r (inv.local i) h;
  local = λ j.
      update-elim (Local (advance (s.pc i) s.shared).1) s.pc i (advance (s.pc i) s.shared).0 j
        (advance-Local inv.sound (s.pc i) (inv.local i) h)
        (λ n.
          Local-Grows inv.sound (advance-Grows inv.sound (s.pc i) (inv.local i) h) (s.pc j)
            (inv.local j) (λ t a b. n (inv.single i j t a b)));
  single = λ j k t a b. ground (
    arith,
    ticket-advance inv.sound (s.pc i) (inv.local i) t,
    inv.single j k t,
    ticket-lt s.shared (s.pc j) t (inv.local j),
    ticket-lt s.shared (s.pc k) t (inv.local k),
  );
}
