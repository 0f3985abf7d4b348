-- ===== src/Services/AuditPath/Roots.antt =====
-- The roots that a policy of src/orkio_v2/services/audit_path_policy.py registers.
use efata_777_backend_premiu.Prelude.{
  String, Bool, false, not, str_eq, ◌||◌, ◌≡◌, refl, sym, some, List, [], ◌∷◌, any, arith,
  Bool-cases, inl, inr,
}
use efata_777_backend_premiu.Prelude.Text.{is_empty, strip}
use efata_777_backend_premiu.Runtime.Contracts.{ok}
use efata_777_backend_premiu.Services.AuditPath.{Files, root_of, is_root, set_root, register}

set_root-any :
    (p : String → Bool) (id path : String) (roots : List (String × String))
    → p path ≡ false
    → any (λ r. p r.1) roots ≡ false
    → any (λ r. p r.1) (set_root id path roots) ≡ false
unfolding any set_root
set_root-any p id path [] h r = rw h refl
set_root-any p id path ((known, old) ∷ roots) h r =
    let rest = set_root-any p id path roots h (ground arith) in
    elim (Bool-cases (str_eq known id)) [
      | inl e ↦ rw e (ground arith)
      | inr e ↦ rw e (ground arith)
    ]

pub register-any :
    (files : Files) (registered roots result : List (String × String))
    → any (λ r. not (is_root files r.1)) roots ≡ false
    → register files registered roots ≡ ok result
    → any (λ r. not (is_root files r.1)) result ≡ false
unfolding register
register-any files [] roots result r h = let same : roots ≡ result = cc h in rw (sym same) r
register-any files ((id, path) ∷ more) roots result r h =
    elim (Bool-cases (is_empty (strip id) || not (is_root files path))) [
      | inl e ↦ cc (rw e at h)
      | inr e ↦
          register-any files more (set_root (strip id) path roots) result
            (set_root-any (λ p. not (is_root files p)) (strip id) path roots (ground arith) r)
            (rw e at h)
    ]

pub root_of-any :
    (p : String → Bool) (id root : String) (roots : List (String × String))
    → any (λ r. p r.1) roots ≡ false
    → root_of id roots ≡ some root
    → p root ≡ false
unfolding any root_of
root_of-any p id root [] r h = cc h
root_of-any p id root ((known, path) ∷ roots) r h = elim (Bool-cases (str_eq known id)) [
  | inl e ↦ let same : path ≡ root = cc (rw e at h) in rw (sym same) (ground arith)
  | inr e ↦ root_of-any p id root roots (ground arith) (rw e at h)
]
