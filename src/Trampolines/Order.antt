-- ===== src/Trampolines/Order.antt =====
-- The list of trampolines as a bag, and the order of its calls.
use substance_3d_connector.Base.{
  ℕ, ◌-◌, ◌≡◌, refl, arith, ◌==◌, ==_refl, true, false, List, [], ◌∷◌, some, if◌then◌else◌, count,
}
use substance_3d_connector.Retcode.{Retcode, is_success}
use substance_3d_connector.Uuid.{Uuid}
use substance_3d_connector.Trampolines.{
  Trampolines, calls, notify_trampolines, add_trampoline, remove_trampoline, remove_first,
}

remove_first-count :
    (t u : ℕ) (ts : List ℕ)
    → let (code, rest) = remove_first t ts in
      (count u rest ≡ count u ts - (if t == u then 1 else 0))
      × (is_success code ≡ (if count t ts == 0 then false else true))
remove_first-count t u [] = (ground arith, refl)
remove_first-count t u (v ∷ ts) = ground (arith, remove_first-count t u ts)

-- A removal takes one registration of its trampoline away if there is one, never one of another,
-- and succeeds exactly when there was one.
remove_trampoline-count :
    (t u : ℕ) (ts : List ℕ)
    → (rest : List ℕ) × (code : Retcode) × (remove_trampoline (some t) (Trampolines.nodes ts)
        ≡ some (code, Trampolines.nodes rest))
      × (count u rest ≡ count u ts - (if t == u then 1 else 0))
      × (is_success code ≡ (if count t ts == 0 then false else true))
unfolding remove_trampoline
remove_trampoline-count t u ts =
    let (code, rest) = remove_first t ts in
    (
      (remove_first t ts).1,
      (remove_first t ts).0,
      refl,
      (remove_first-count t u ts).0,
      (remove_first-count t u ts).1,
    )

-- A trampoline that is added hears of a message once more, before all others, and removing it
-- brings the list back.
add_trampoline-remove :
    (t context : ℕ) (type : Uuid) (text ts : List ℕ)
    → (s : Trampolines) × (add_trampoline (some t) (Trampolines.nodes ts)
        ≡ some (Retcode.success, s))
      × (notify_trampolines context type text s
          ≡ some (
              record { trampoline = t; context = context; type = type; text = text }
              ∷ calls context type text ts))
      × (remove_trampoline (some t) s ≡ some (Retcode.success, Trampolines.nodes ts))
unfolding add_trampoline notify_trampolines remove_trampoline
add_trampoline-remove t context type text ts =
    (Trampolines.nodes (t ∷ ts), refl, refl, rw (==_refl t) refl)
