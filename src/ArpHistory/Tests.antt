-- ===== src/ArpHistory/Tests.antt =====
-- A small database, its table, and a query.
use sntools.Base.{
  ◌≡◌, refl, true, some, none, [], ◌∷◌, map, arith, if◌then◌else◌, Bytes, codes, str_eq, List,
}
use sntools.Mdb.{Lookup, found, not_found, Lmdb, with_nul, c_string, get_mdb}
use sntools.ArpHistory.{set_option, configure, table_head, print_table, ts_key, output}
use sntools.ArpHistory.Table.{
  Entry, IsRecord, next_record, all_read, entry_line, print_table-Listed,
}

abbrev mac_records : List (Bytes × Bytes)
mac_records =
    (with_nul (codes "MacIp:aa"), with_nul (codes "10.0.0.1"))
    ∷ (with_nul (codes "MacIp:bb"), with_nul (codes "10.0.0.2"))
    ∷ []

abbrev names : Bytes → Lookup
names k =
    if str_eq k (with_nul (codes "10.0.0.2"))
    then found (with_nul (codes "host"))
    else if str_eq k (with_nul (codes "bb_ts"))
    then found (with_nul (codes "1600000000"))
    else not_found

abbrev database : Lmdb
database = record {
  Txn = Unit {0};
  get = λ t k. names k;
  put = λ t k v. none;
  from = λ t k. mac_records;
}

abbrev a_day : Bytes → Bytes
a_day ts = codes "Sun Sep 13 2020"

abbrev bb : Entry
bb = record {
  mac = codes "bb";
  ip = codes "10.0.0.2";
  hostname = codes "host";
  ts = codes "1600000000";
}

bb-IsRecord : IsRecord database tt (with_nul (codes "MacIp:bb"), with_nul (codes "10.0.0.2")) bb
unfolding c_string get_mdb str_eq
bb-IsRecord = record { key = refl; value = refl; short = omega arith; host = refl; stamp = refl }

print_table-Listed_example :
    print_table database tt a_day true
    ≡ some (table_head database tt a_day ∷ map (entry_line database tt a_day) (bb ∷ []))
print_table-Listed_example =
    print_table-Listed database tt a_day (with_nul (codes "MacIp:aa"), with_nul (codes "10.0.0.1"))
      ((with_nul (codes "MacIp:bb"), with_nul (codes "10.0.0.2")) ∷ []) (bb ∷ []) refl
      (next_record bb-IsRecord all_read)

query_sample :
    output database tt a_day (
      configure
        (record { query = none; mdb_data_dir = []; output_format = b'0' })
        ((b'q', codes "bb") ∷ []))
    ≡ some (codes "Last seen at: 1600000000\n" ∷ [])
unfolding output configure set_option ts_key get_mdb c_string str_eq
query_sample = refl
