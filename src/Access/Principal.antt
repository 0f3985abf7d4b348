-- ===== src/Access/Principal.antt =====
-- src/orkio_v2/auth.py: the identity that a request acts under.
use efata_777_backend_premiu.Prelude.{String, Bool, Option, List, any, str_eq}

pub record Principal : Type 0 where
  pub user_id : String
  pub tenant_id : String
  pub roles : List String
  pub email : Option String
  pub external_subject : Option String

-- `name in names`.
abbrev pub includes : String → List String → Bool
includes name names = any (λ n. str_eq n name) names

-- `bool(wanted.intersection(names))`.
abbrev pub meets : List String → List String → Bool
meets wanted names = any (λ w. includes w names) wanted
