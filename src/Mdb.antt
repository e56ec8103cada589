-- ===== src/Mdb.antt =====
-- src/lib/mdb.c over LMDB, which is another project's library and so an interface: what its calls
-- return, and the records that a cursor meets.
pub mod Laws
pub mod Memory
mod Tests
use sntools.Base.{
  ℕ, Bool, true, false, Option, none, some, List, [], ◌∷◌, ◌++◌, if◌then◌else◌, ◌==◌, Bytes, ◌≡◌,
  ◌≢◌,
}

-- `mdb_get`: the value, MDB_NOTFOUND, or another error.
pub data Lookup : Type 0 where
  found : Bytes → Lookup
  not_found : Lookup
  failed : Lookup

-- An open transaction. `from` are the records from the first key on that is not below the given one,
-- which MDB_SET_RANGE and then MDB_NEXT return; from the empty key, all records.
pub record Lmdb : Type 1 where
  pub Txn : Type 0
  pub get : Txn → Bytes → Lookup
  pub put : Txn → Bytes → Bytes → Option Txn
  pub from : Txn → Bytes → List (Bytes × Bytes)

-- What a successful put promises.
pub record IsStore (db : Lmdb) : Type 0 where
  pub get-put : (t u : db.Txn) (k v : Bytes) → db.put t k v ≡ some u → db.get u k ≡ found v
  pub get-put_other :
      (t u : db.Txn) (k v j : Bytes) → db.put t k v ≡ some u → j ≢ k → db.get u j ≡ db.get t j

-- A C string with its NUL, as keys and values are stored.
abbrev pub with_nul : Bytes → Bytes
with_nul s = s ++ 0 ∷ []

-- The C string at the start of a value; `none` if it has no NUL.
unfoldable pub c_string : Bytes → Option Bytes
c_string [] = none
c_string (c ∷ rest) =
    let more = c_string rest in
    if c == 0 then some [] else elim more [ none ↦ none | some s ↦ some (c ∷ s) ]

module _ (db : Lmdb) where
  unfoldable pub get_mdb : db.Txn → Bytes → Lookup
  get_mdb t key = db.get t (with_nul key)

  -- `putMdb`; a failure is reported on the terminal only.
  unfoldable pub put_mdb : db.Txn → Bytes → Bytes → db.Txn
  put_mdb t key value = elim (db.put t (with_nul key) (with_nul value)) [ none ↦ t | some u ↦ u ]

-- What the calls of `prepareMdb` return: true is success.
pub record Outcomes : Type 0 where
  pub dir_exists : Bool
  pub mkdir_ok : Bool
  pub env_create_ok : Bool
  pub env_open_ok : Bool
  pub txn_begin_ok : Bool
  pub dbi_open_ok : Bool

-- The return value, and which handles are open afterwards.
pub record Prepared : Type 0 where
  pub status : ℕ
  pub env_open : Bool
  pub txn_open : Bool

abbrev pub nothing_open : Prepared
nothing_open = record { status = 1; env_open = false; txn_open = false }

abbrev pub mdb_env_close : Prepared → Prepared
mdb_env_close p = record p { env_open = false }

abbrev pub mdb_txn_abort : Prepared → Prepared
mdb_txn_abort p = record p { txn_open = false }

unfoldable pub prepare_mdb : Outcomes → Prepared
prepare_mdb o =
    let env : Prepared = record { status = 1; env_open = true; txn_open = false } in
    let txn : Prepared = record { status = 1; env_open = true; txn_open = true } in
    if (if o.dir_exists then false else if o.mkdir_ok then false else true)
    then nothing_open
    else if (if o.env_create_ok then false else true)
    then nothing_open
    else if (if o.env_open_ok then false else true)
    then mdb_env_close env
    else if (if o.txn_begin_ok then false else true)
    then mdb_env_close env
    else if (if o.dbi_open_ok then false else true)
    then mdb_env_close (mdb_txn_abort txn)
    else record txn { status = 0 }

-- `closeMdb`: a failed commit is reported on the terminal only, and ends the transaction too.
unfoldable pub close_mdb : Prepared → Prepared
close_mdb p = mdb_env_close (record p { txn_open = false })
