-- ===== src/Mdb/Laws.antt =====
-- What the wrapper of the key-value store keeps of LMDB's promises, and its error paths.
use sntools.Base.{
  str_eq, str_eq→eq, str_eq_refl, if◌then◌else◌, ◌≡◌, ◌≢◌, ◌⊎◌, refl, ap, ◌∙◌, sym, inl, inr, true,
  false, some, List, [], ◌∷◌, ◌++◌, arith, ◌==◌, Bool-cases, Bytes, All,
}
use sntools.Mdb.{
  found, Lmdb, IsStore, with_nul, c_string, get_mdb, put_mdb, Outcomes, Prepared, nothing_open,
  prepare_mdb,
}

abbrev pub LacksNul : Bytes → Type 0
LacksNul = All (λ c. (c == 0) ≡ false)

pub c_string-with_nul : (s : Bytes) → LacksNul s → c_string (with_nul s) ≡ some s
unfolding c_string
c_string-with_nul [] h = refl
c_string-with_nul (c ∷ s) (n, h) = rw (n, c_string-with_nul s h) refl

-- The string before a last byte.
abbrev initial : Bytes → Bytes
initial [] = []
initial (c ∷ []) = []
initial (c ∷ d ∷ s) = c ∷ initial (d ∷ s)

initial-with_nul : (s : Bytes) → initial (with_nul s) ≡ s
initial-with_nul [] = refl
initial-with_nul (c ∷ []) = refl
initial-with_nul (c ∷ d ∷ s) = ap (◌∷◌ c) (initial-with_nul (d ∷ s))

with_nul_injective : (a b : Bytes) → with_nul a ≡ with_nul b → a ≡ b
with_nul_injective a b e = sym (initial-with_nul a) ∙ ap initial e ∙ initial-with_nul b

module _ (db : Lmdb) (laws : IsStore db) where
  -- A put that LMDB accepts: `getMdb` of the key returns the value with its NUL, as a C string the
  -- value itself, and every other key returns what it did before.
  pub put_mdb-get_mdb :
      (t u : db.Txn) (key value : Bytes)
      → db.put t (with_nul key) (with_nul value) ≡ some u
      → LacksNul value
      → (get_mdb db (put_mdb db t key value) key ≡ found (with_nul value))
        × (c_string (with_nul value) ≡ some value)
        × ((other : Bytes)
            → other ≢ key
            → get_mdb db (put_mdb db t key value) other ≡ get_mdb db t other)
  unfolding get_mdb put_mdb
  put_mdb-get_mdb t u key value e h =
      rw (e, put_mdb)
        (
          laws.get-put t u (with_nul key) (with_nul value) e,
          c_string-with_nul value h,
          λ other n.
              laws.get-put_other t u (with_nul key) (with_nul value) (with_nul other) e
                (λ same. n (with_nul_injective other key same)),
        )

module _ (db : Lmdb) where
  -- The transaction after some calls of `putMdb`.
  abbrev pub after : db.Txn → List (Bytes × Bytes) → db.Txn
  after t [] = t
  after t ((key, value) ∷ puts) = after (put_mdb db t key value) puts

  -- None of these calls fails.
  abbrev pub Taken : db.Txn → List (Bytes × Bytes) → Type 0
  Taken t [] = Unit
  Taken t ((key, value) ∷ puts) =
      ((u : db.Txn) × (db.put t (with_nul key) (with_nul value) ≡ some u))
      × Taken (put_mdb db t key value) puts

  pub Taken-split :
      (t : db.Txn) (puts later : List (Bytes × Bytes))
      → Taken t (puts ++ later)
      → Taken t puts × Taken (after t puts) later
  Taken-split t [] later h = (tt, h)
  Taken-split t ((key, value) ∷ puts) later (h, hs) =
      let (k, l) = Taken-split (put_mdb db t key value) puts later hs in ((h, k), l)

  pub after-append :
      (t : db.Txn) (puts later : List (Bytes × Bytes))
      → after t (puts ++ later) ≡ after (after t puts) later
  after-append t [] later = refl
  after-append t ((key, value) ∷ puts) later = after-append (put_mdb db t key value) puts later

-- What a key holds after a put that is taken.
pub get_mdb-put_mdb :
    (db : Lmdb)
    → IsStore db
    → (t : db.Txn) (key value j : Bytes)
    → ((u : db.Txn) × (db.put t (with_nul key) (with_nul value) ≡ some u))
    → get_mdb db (put_mdb db t key value) j
      ≡ (if str_eq j key then found (with_nul value) else get_mdb db t j)
unfolding get_mdb put_mdb
get_mdb-put_mdb db laws t key value j (u, e) = elim (Bool-cases (str_eq j key)) [
  | inl same ↦
      rw (e, put_mdb, same, str_eq→eq j key same)
        (laws.get-put t u (with_nul key) (with_nul value) e)
  | inr differ ↦
      rw (e, put_mdb, differ)
        (laws.get-put_other t u (with_nul key) (with_nul value) (with_nul j) e (λ same.
          cc (differ, ap (λ k. str_eq k key) (with_nul_injective j key same), str_eq_refl key)))
]

-- Every call that is needed has succeeded.
pub record AllOk (o : Outcomes) : Type 0 where
  pub dir_ok : (o.dir_exists ≡ true) ⊎ (o.mkdir_ok ≡ true)
  pub create_ok : o.env_create_ok ≡ true
  pub open_ok : o.env_open_ok ≡ true
  pub begin_ok : o.txn_begin_ok ≡ true
  pub dbi_ok : o.dbi_open_ok ≡ true

abbrev pub all_open : Prepared
all_open = record { status = 0; env_open = true; txn_open = true }

-- `prepareMdb` returns 0 with the environment and the transaction open only if every call it needs
-- has succeeded, and else 1 with neither left open.
pub prepare_mdb_lem :
    (o : Outcomes) → ((prepare_mdb o ≡ all_open) × AllOk o) ⊎ (prepare_mdb o ≡ nothing_open)
unfolding prepare_mdb
prepare_mdb_lem o = elim (Bool-cases o.env_create_ok) [
  | inr e ↦ inr (ground arith)
  | inl create ↦ elim (Bool-cases o.env_open_ok) [
    | inr e ↦ inr (ground arith)
    | inl opened ↦ elim (Bool-cases o.txn_begin_ok) [
      | inr e ↦ inr (ground arith)
      | inl begin ↦ elim (Bool-cases o.dbi_open_ok) [
        | inr e ↦ inr (ground arith)
        | inl dbi ↦ elim (Bool-cases o.dir_exists) [
          | inl dir ↦ inl (
            ground arith,
            record {
              dir_ok = inl dir;
              create_ok = create;
              open_ok = opened;
              begin_ok = begin;
              dbi_ok = dbi;
            },
          )
          | inr missing ↦ elim (Bool-cases o.mkdir_ok) [
            | inl made ↦ inl (
              ground arith,
              record {
                dir_ok = inr made;
                create_ok = create;
                open_ok = opened;
                begin_ok = begin;
                dbi_ok = dbi;
              },
            )
            | inr e ↦ inr (ground arith)
          ]
        ]
      ]
    ]
  ]
]
