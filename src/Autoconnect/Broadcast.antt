-- ===== src/Autoconnect/Broadcast.antt =====
-- The connection to everything in a directory.
use substance_3d_connector.Base.{
  ℕ, ◌<◌, ◌≡◌, ap, sym, refl, ◌∙◌, leb, ◌>>=◌, if◌then◌else◌, Bool, true, false, List, Option, none,
  some, length,
}
use substance_3d_connector.Retcode.{Retcode, is_success}
use substance_3d_connector.Contexts.Types.{State}
use substance_3d_connector.Files.{
  FileSystem, FileList, Cell, is_directory, list_directory, default_filter, walk,
}
use substance_3d_connector.Files.Listing.{accepted, list_directory-walk, list_directory-array}
use substance_3d_connector.Autoconnect.{
  finished, visit_elements, visit_array, visit_all, visit_listing, broadcast_connect,
}

module _ {W : Type 0} (fs : FileSystem W) (test : W → Option (List ℕ) → Retcode)
    (connect : List ℕ → State W → Option (Retcode × State W)) where
  visit_listing-array :
      (directory : List ℕ) (l : FileList) (s : State W) (array : List Cell)
      → l.elements ≡ some array
      → visit_listing fs test connect directory (Retcode.success, l) s
        ≡ visit_array fs test connect directory array s
  unfolding visit_listing visit_elements
  visit_listing-array directory l s array e = rw (visit_listing, e) refl

  visit_array-walk :
      (directory : List ℕ) (array : List Cell) (s : State W) (b : Bool) (names : List (List ℕ))
      → walk array ≡ (if b then some names else none)
      → visit_array fs test connect directory array s
        ≡ (if b then finished (visit_all fs test connect directory names s) else none)
  unfolding visit_array
  visit_array-walk directory array s true names e = rw e refl
  visit_array-walk directory array s false names e = rw e refl

  -- A broadcast over a directory with one to fifteen names without a leading dot tries each of
  -- them once, in the order of the directory, and reports a success whatever the connections give;
  -- from sixteen names on it reads memory that was never written.
  broadcast_connect-visits :
      (directory : List ℕ) (names : List (List ℕ)) (s : State W)
      → is_success (is_directory fs s.world (some directory)) ≡ true
      → fs.readdir s.world directory ≡ some names
      → 0 < length (accepted default_filter names)
      → broadcast_connect fs test connect directory s ≡ (
          if leb (length (accepted default_filter names)) 15
          then finished (visit_all fs test connect directory (accepted default_filter names) s)
          else none)
  unfolding broadcast_connect
  broadcast_connect-visits directory names s there listed some_name =
      let (code, walked) = list_directory-walk fs s.world directory names listed some_name in
      let (array, present) = list_directory-array fs s.world directory names listed some_name in
      rw there (
        ap
          (λ c.
            visit_listing fs test connect directory (c, (list_directory fs s.world directory).1) s)
          code
        ∙ visit_listing-array directory (list_directory fs s.world directory).1 s array present
        ∙ visit_array-walk directory array s _ (accepted default_filter names)
            (sym (ap (λ o. o >>= walk) present) ∙ walked))
