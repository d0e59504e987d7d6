-- ===== src/Vars/Behind.antt =====
-- `ExtractVarRefs` on a text that begins with no reference.
use nvoi.Base.{Bytes, [], ◌∷◌, ◌++◌, false, has_byte, arith, ◌≡◌, refl}
use nvoi.Vars.{extract_var_refs, extract_loop, extract_at}

-- The references behind a text without `$` are all of them.
pub extract_var_refs-behind :
    (t s : Bytes) → has_byte b'$' t ≡ false → extract_var_refs (t ++ s) ≡ extract_var_refs s
unfolding extract_var_refs extract_loop extract_at has_byte
extract_var_refs-behind [] s h = refl
extract_var_refs-behind (c ∷ []) [] h = refl
extract_var_refs-behind (c ∷ []) (n ∷ s) h = ground (arith, h)
extract_var_refs-behind (c ∷ d ∷ t) s h = ground (arith, h, extract_var_refs-behind (d ∷ t) s)
