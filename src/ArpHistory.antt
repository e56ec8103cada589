-- ===== src/ArpHistory.antt =====
-- src/arp-history.c: the listings of the database that arp-scan-util fills. `none` is undefined
-- behaviour: a NULL string printed or read as a number, a write past `tsKey[64]`, a value without NUL.
-- The date of a time stamp is a parameter (strtol, localtime and strftime).
pub mod Table
mod Tests
use sntools.Base.{
  ℕ, ◌+◌, Bool, true, false, Option, none, some, List, [], ◌∷◌, ◌++◌, if◌then◌else◌, length, drop,
  ltb, ◌==◌, Bytes, codes, Opts, is_prefix,
}
use sntools.Mdb.{Lookup, found, not_found, failed, Lmdb, c_string, get_mdb}

pub record Config : Type 0 where
  pub query : Option Bytes
  pub mdb_data_dir : Bytes
  pub output_format : ℕ

-- One option; the messages are left out.
unfoldable pub set_option : Config → ℕ × Bytes → Config
set_option c (option, arg) =
    if option == b'q'
    then record c { query = some arg }
    else if option == b'd'
    then record c { mdb_data_dir = arg }
    else if option == b't'
    then record c { output_format = b't' }
    else c

unfoldable pub configure : Config → Opts → Config
configure c [] = c
configure c (o ∷ os) = configure (set_option c o) os

infixl 5 ◌>>=◌
abbrev pub ◌>>=◌ : {A B : Type 0} → Option A → (A → Option B) → Option B
none >>= f = none
some a >>= f = f a

abbrev pub prefix : Bytes
prefix = codes "MacIp:"

-- The string a lookup gives, used as a string.
abbrev pub string_of : Lookup → Option Bytes
string_of (found v) = c_string v
string_of not_found = none
string_of failed = none

-- `sprintf(tsKey, "%s_ts", …)`
unfoldable pub ts_key : Bytes → Option Bytes
ts_key name = if ltb (length name + 3) 64 then some (name ++ codes "_ts") else none

module _ (db : Lmdb) (t : db.Txn) where
  -- The loop of `print_all_data` over what the cursor returns.
  unfoldable pub all_lines : List (Bytes × Bytes) → Option (List Bytes)
  all_lines [] = some []
  all_lines ((key, value) ∷ entries) = do
    k ← c_string key
    v ← c_string value
    lines ← all_lines entries
    some ((k ++ codes "\t" ++ v ++ codes "\n") ∷ lines)

  -- `print_all_data`; without a cursor it prints nothing.
  unfoldable pub print_all_data : (cursor_ok : Bool) → Option (List Bytes)
  print_all_data cursor_ok = if cursor_ok then all_lines (db.from t []) else some []

  module _ (date : Bytes → Bytes) where
    -- The line of a record.
    unfoldable pub table_line : (mac ip : Bytes) → Option Bytes
    table_line mac ip = do
      ts_name ← ts_key mac
      hostname ← string_of (get_mdb db t ip)
      ts ← string_of (get_mdb db t ts_name)
      some (
          mac
          ++ codes "\t"
          ++ ip
          ++ codes "\t"
          ++ hostname
          ++ codes "\t"
          ++ ts
          ++ codes "\t"
          ++ date ts
          ++ codes "\n")

    -- The loop of `print_table`, which ends at the first other key.
    unfoldable pub table_loop : List (Bytes × Bytes) → Option (List Bytes)
    table_loop [] = some []
    table_loop ((key, value) ∷ entries) =
        let more = table_loop entries in
        c_string key >>= λ name.
        if (if ltb (length name) 6 then false else is_prefix prefix name)
        then (do
          ip ← c_string value
          line ← table_line (drop 6 name) ip
          lines ← more
          some (line ∷ lines))
        else some []

    abbrev pub table_head : Bytes
    table_head = codes "MAC\tIP\tHOSTNAME\tTS\tDATE\n"

    -- `print_table`: MDB_SET_RANGE returns the first record, and the loop begins with MDB_NEXT.
    unfoldable pub print_table : (cursor_ok : Bool) → Option (List Bytes)
    print_table cursor_ok =
        if cursor_ok
        then elim (db.from t prefix) [
          | [] ↦ some []
          | _ ∷ entries ↦ (do lines ← table_loop entries; some (table_head ∷ lines))
        ]
        else some []

    -- What `main` prints with the database open and a cursor at hand.
    unfoldable pub output : Config → Option (List Bytes)
    output c = elim c.query [
      | some q ↦ (do
        name ← ts_key q
        elim (get_mdb db t name) [
          | not_found ↦ some ((codes "'" ++ q ++ codes "' not found\n") ∷ [])
          | found v ↦ (do s ← c_string v; some ((codes "Last seen at: " ++ s ++ codes "\n") ∷ []))
          | failed ↦ none
        ])
      | none ↦
          if c.output_format == b't'
          then (do lines ← print_table true; some (codes "arp history:\n\n" ∷ lines))
          else (do lines ← print_all_data true; some (codes "arp database:\n\n" ∷ lines))
    ]
