-- ===== src/ArpHistory/Table.antt =====
-- The table that arp-history prints of the records of the database.
use sntools.Base.{
  ◌+◌, ◌<◌, ◌≡◌, refl, true, false, some, List, [], ◌∷◌, ◌++◌, map, arith, length, ltb, inl, inr,
  Bool-cases, Bytes, codes, is_prefix,
}
use sntools.Mdb.{Lmdb, c_string, get_mdb}
use sntools.ArpHistory.{prefix, string_of, ts_key, table_line, table_loop, table_head, print_table}

-- What the database knows of a MAC address.
pub record Entry : Type 0 where
  pub mac : Bytes
  pub ip : Bytes
  pub hostname : Bytes
  pub ts : Bytes

module _ (db : Lmdb) (t : db.Txn) where
  -- A record of an address whose host name and time stamp are in the database, too.
  pub record IsRecord (r : Bytes × Bytes) (e : Entry) : Type 0 where
    pub key : c_string r.0 ≡ some (prefix ++ e.mac)
    pub value : c_string r.1 ≡ some e.ip
    pub short : length e.mac + 3 < 64
    pub host : string_of (get_mdb db t e.ip) ≡ some e.hostname
    pub stamp : string_of (get_mdb db t (e.mac ++ codes "_ts")) ≡ some e.ts

  -- The records up to the end, or to the first key that is no MAC address.
  pub data Listed : List (Bytes × Bytes) → List Entry → Type 0 where
    all_read : Listed [] []
    other_key :
        {k v name : Bytes} {rs : List (Bytes × Bytes)}
        → c_string k ≡ some name
        → is_prefix prefix name ≡ false
        → Listed ((k, v) ∷ rs) []
    next_record :
        {r : Bytes × Bytes} {e : Entry} {rs : List (Bytes × Bytes)} {es : List Entry}
        → IsRecord r e
        → Listed rs es
        → Listed (r ∷ rs) (e ∷ es)

  module _ (date : Bytes → Bytes) where
    abbrev pub entry_line : Entry → Bytes
    entry_line e =
        e.mac
        ++ codes "\t"
        ++ e.ip
        ++ codes "\t"
        ++ e.hostname
        ++ codes "\t"
        ++ e.ts
        ++ codes "\t"
        ++ date e.ts
        ++ codes "\n"

    table_line-entry :
        (r : Bytes × Bytes) (e : Entry)
        → IsRecord r e
        → table_line db t date e.mac e.ip ≡ some (entry_line e)
    unfolding table_line ts_key
    table_line-entry r e h =
        let s : ltb (length e.mac + 3) 64 ≡ true = ground (arith, h.short) in
        rw (s, h.host, h.stamp) refl

    table_loop-Listed :
        {rs : List (Bytes × Bytes)} {es : List Entry}
        → Listed rs es
        → table_loop db t date rs ≡ some (map entry_line es)
    unfolding table_loop is_prefix
    table_loop-Listed all_read = refl
    table_loop-Listed (other_key {name} k n) = elim (Bool-cases (ltb (length name) 6)) [
      | inl e ↦ rw (k, e) refl
      | inr e ↦ rw (k, e, n) refl
    ]
    table_loop-Listed (next_record {r} {e} {rs} {es} h l) =
        let long : ltb (length (prefix ++ e.mac)) 6 ≡ false = ground arith in
        rw (h.key, h.value, table_line-entry r e h, table_loop-Listed l, long) refl

    -- The table of arp-history has a line for every record of a MAC address but the first: the one
    -- that positions the cursor is skipped.
    pub print_table-Listed :
        (r : Bytes × Bytes) (rs : List (Bytes × Bytes)) (es : List Entry)
        → db.from t prefix ≡ r ∷ rs
        → Listed rs es
        → print_table db t date true ≡ some (table_head db t date ∷ map entry_line es)
    unfolding print_table
    print_table-Listed r rs es e l = rw (e, print_table, table_loop-Listed l) refl
