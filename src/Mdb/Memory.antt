-- ===== src/Mdb/Memory.antt =====
-- A store that keeps its records in a function meets the assumptions on LMDB.
use sntools.Base.{
  refl, ap, ◌∙◌, sym, inl, inr, Bool-cases, some, none, Option, List, [], ◌∷◌, if◌then◌else◌, Bytes,
  str_eq, str_eq_refl, str_eq→eq,
}
use sntools.Mdb.{Lookup, found, not_found, Lmdb, IsStore, with_nul, put_mdb}
use sntools.Mdb.Laws.{Taken}

abbrev pub records : Lmdb
records = record {
  Txn = Bytes → Lookup;
  get = λ t k. t k;
  put = λ t k v. some (λ j. if str_eq j k then found v else t j);
  from = λ t k. [];
}

abbrev lookup_in : Bytes → Option (Bytes → Lookup) → Lookup
lookup_in k none = not_found
lookup_in k (some t) = t k

pub records-IsStore : IsStore records
records-IsStore = record {
  get-put = λ t u k v e. sym (ap (lookup_in k) e) ∙ rw (str_eq_refl k) refl;
  get-put_other = λ t u k v j e n. sym (ap (lookup_in j) e) ∙ elim (Bool-cases (str_eq j k)) [
    | inl same ↦ elim (n (str_eq→eq j k same)) [ ]
    | inr other ↦ rw other refl
  ];
}

-- It refuses nothing.
pub records-Taken : (t : Bytes → Lookup) (puts : List (Bytes × Bytes)) → Taken records t puts
unfolding put_mdb
records-Taken t [] = tt
records-Taken t ((key, value) ∷ puts) = (
  ((λ j. if str_eq j (with_nul key) then found (with_nul value) else t j), refl),
  records-Taken (λ j. if str_eq j (with_nul key) then found (with_nul value) else t j) puts,
)
