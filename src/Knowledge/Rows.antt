-- ===== src/Knowledge/Rows.antt =====
-- Counting the rows of the knowledge tables after the writes of src/orkio_v2/services/knowledge_repository.py.
use mathlib.Core.Option
use efata_777_backend_premiu.Prelude.{
  ℕ, ◌+◌, String, ◌≡◌, refl, Bool, false, Option, none, some, List, [], ◌∷◌, str_eq, eq_iff, arith,
  any, find, modify_first, count_if, if◌then◌else◌,
}
use efata_777_backend_premiu.Knowledge.Tables.{delete_first, has_blob, without}

module _ {ℓ} {A : Type ℓ} where
  -- How often the row that a query found counts.
  abbrev pub pick : (A → Bool) → Option A → ℕ
  pick p none = 0
  pick p (some x) = if p x then 1 else 0

  pub count_if-modify_first :
      (p q : A → Bool) (f : A → A) (xs : List A)
      → count_if p (modify_first q f xs) + pick p (find q xs)
        ≡ count_if p xs + pick p (Option.map f (find q xs))
  unfolding count_if modify_first find
  count_if-modify_first p q f [] = refl
  count_if-modify_first p q f (x ∷ xs) = ground (arith, count_if-modify_first p q f xs)

  pub count_if-delete_first :
      (p q : A → Bool) (xs : List A)
      → count_if p (delete_first q xs) + pick p (find q xs) ≡ count_if p xs
  unfolding count_if delete_first find
  count_if-delete_first p q [] = refl
  count_if-delete_first p q (x ∷ xs) = ground (arith, count_if-delete_first p q xs)

pub has_blob-without :
    (k j : String) (bs : List String)
    → has_blob k (without j bs) ≡ (if str_eq j k then false else has_blob k bs)
unfolding has_blob any without
has_blob-without k j [] = ground arith
has_blob-without k j (b ∷ bs) =
    ground (arith, has_blob-without k j bs, eq_iff b j, eq_iff b k, eq_iff j k)
