-- ===== src/Storage.antt =====
-- rs/src/storage: the bounds and errors of rs/src/storage/access.rs, and the keys of an entry.
-- The iterator of `collect_page` is the list of its items.
pub mod Buffer
pub mod Mem
use mathlib.Core.Path.{ap₂}
use bbg.Prelude.{
  ℕ, zero, suc, ◌+◌, ◌-◌, ◌≡◌, Bool, true, false, ◌||◌, Option, none, some, List, [], ◌∷◌, ◌++◌,
  length, if◌then◌else◌, ◌==◌, ltb, leb, ap,
}
use bbg.Prelude.Ord.{Ord, cmp_list, cmp_list-IsTotalOrder}
use bbg.Bytes.{Bytes32, Bytes32-eq}

abbrev pub max_value_elements : ℕ
max_value_elements = 131072

abbrev pub max_pending_elements : ℕ
max_pending_elements = 2097152

abbrev pub max_pending_keys : ℕ
max_pending_keys = 65536

abbrev pub max_scan_entries : ℕ
max_scan_entries = 4096

-- `dim::EPHEMERAL`, the dimension that is local only
abbrev pub ephemeral : ℕ
ephemeral = 13

-- The texts of the limits.
pub data LimitName : Type 0 where
  value_elements : LimitName
  pending_elements : LimitName
  pending_keys : LimitName
  scan_entries : LimitName
  read_elements : LimitName
  read_budget : LimitName
  page_budget : LimitName

-- The texts of the other errors are bytes.
pub data StorageError : Type 0 where
  invalid_dimension : ℕ → StorageError
  limit : LimitName → StorageError
  corrupt : List ℕ → StorageError
  io : List ℕ → StorageError
  busy : StorageError
  pending_writes : StorageError
  unsupported : List ℕ → StorageError
  commit_unknown : Bytes32 → List ℕ → StorageError

pub data StorageResult (A : Type 0) : Type 0 where
  ok : A → StorageResult A
  err : StorageError → StorageResult A

-- `(u8, [u8; 32])`, in the order of its derived `Ord`
abbrev pub EntryKey : Type 0
EntryKey = ℕ × Bytes32

abbrev key_list : EntryKey → List ℕ
key_list (d, k) = d ∷ k.0

pub key_list-inj : (a b : EntryKey) → a.0 ∷ a.1.0 ≡ b.0 ∷ b.1.0 → a ≡ b
key_list-inj (d, k) (e, l) h =
    let same : k.0 ≡ l.0 = cc h in ap₂ (λ x y. (x, y)) (cc h) (Bytes32-eq k l same)

instance unfoldable pub entry_ord : Ord EntryKey
entry_ord = record {
  cmp = λ a b. cmp_list (a.0 ∷ a.1.0) (b.0 ∷ b.1.0);
  total = record {
    cmp_refl = λ a. cmp_list-IsTotalOrder.cmp_refl (a.0 ∷ a.1.0);
    eq_of_cmp =
        λ a b h. key_list-inj a b (cmp_list-IsTotalOrder.eq_of_cmp (a.0 ∷ a.1.0) (b.0 ∷ b.1.0) h);
    gt_of_lt = λ a b. cmp_list-IsTotalOrder.gt_of_lt (a.0 ∷ a.1.0) (b.0 ∷ b.1.0);
    lt_of_gt = λ a b. cmp_list-IsTotalOrder.lt_of_gt (a.0 ∷ a.1.0) (b.0 ∷ b.1.0);
    lt_trans = λ a b c. cmp_list-IsTotalOrder.lt_trans (a.0 ∷ a.1.0) (b.0 ∷ b.1.0) (c.0 ∷ c.1.0);
  };
}

pub record ScanLimits : Type 0 where
  pub max_entries : ℕ
  pub max_elements : ℕ

-- `none` is `Ok(())`.
unfoldable pub check_dimension : ℕ → Option StorageError
check_dimension d = if ltb ephemeral d then some (invalid_dimension d) else none

unfoldable pub check_read_limit : ℕ → Option StorageError
check_read_limit n = if ltb max_value_elements n then some (limit read_elements) else none

unfoldable pub validate_limits : ScanLimits → Option StorageError
unfolding check_read_limit
validate_limits l =
    if l.max_entries == 0 || ltb max_scan_entries l.max_entries
    then some (limit scan_entries)
    else check_read_limit l.max_elements

unfoldable pub copy_value : {A : Type 0} → List A → ℕ → StorageResult (List A)
unfolding check_read_limit
copy_value value n = elim (check_read_limit n) [
  | some e ↦ err e
  | none ↦ if ltb n (length value) then err (limit read_budget) else ok value
]

abbrev pub and_then : {A B : Type 0} → StorageResult A → (A → StorageResult B) → StorageResult B
and_then (ok a) f = f a
and_then (err e) f = err e

-- The loop of `collect_page`: at most `count` entries, whose elements so far are `elements`.
unfoldable pub page_of :
    {K A : Type 0}
    → ScanLimits
    → ℕ
    → ℕ
    → List (StorageResult (K × List A))
    → StorageResult (List (K × List A))
page_of l zero elements entries = ok []
page_of l (suc count) elements [] = ok []
page_of l (suc count) elements (err e ∷ entries) = err e
page_of l (suc count) elements (ok (key, value) ∷ entries) =
    let rest = page_of l count (elements + length value) entries in
    if ltb l.max_elements (length value)
    then err (limit page_budget)
    else if ltb (l.max_elements - elements) (length value)
    then ok []
    else and_then rest (λ page. ok ((key, value) ∷ page))

unfoldable pub collect_page :
    {K A : Type 0}
    → List (StorageResult (K × List A))
    → ScanLimits
    → StorageResult (List (K × List A))
unfolding validate_limits page_of
collect_page entries l = elim (validate_limits l) [
  | some e ↦ err e
  | none ↦ page_of l l.max_entries 0 entries
]
