-- ===== src/Mdb/Tests.antt =====
-- The wrapper at a small store.
use sntools.Base.{◌≡◌, ◌≢◌, ◌⊎◌, refl, true, false, some, if◌then◌else◌, Bytes, codes, str_eq}
use sntools.Mdb.{
  found, not_found, with_nul, c_string, get_mdb, put_mdb, Outcomes, nothing_open, prepare_mdb,
}
use sntools.Mdb.Memory.{records, records-IsStore}
use sntools.Mdb.Laws.{AllOk, all_open, put_mdb-get_mdb, prepare_mdb_lem}

put_mdb-get_mdb_example :
    (get_mdb records (put_mdb records (λ k. not_found) (codes "mac") (codes "ip")) (codes "mac")
      ≡ found (with_nul (codes "ip")))
    × (c_string (with_nul (codes "ip")) ≡ some (codes "ip"))
    × ((other : Bytes)
        → other ≢ codes "mac"
        → get_mdb records (put_mdb records (λ k. not_found) (codes "mac") (codes "ip")) other
          ≡ get_mdb records (λ k. not_found) other)
put_mdb-get_mdb_example =
    put_mdb-get_mdb records records-IsStore (λ k. not_found)
      (λ j. if str_eq j (codes "mac\0") then found (codes "ip\0") else not_found) (codes "mac")
      (codes "ip") refl (refl, (refl, tt))

abbrev first_run : Outcomes
first_run = record {
  dir_exists = false;
  mkdir_ok = true;
  env_create_ok = true;
  env_open_ok = true;
  txn_begin_ok = true;
  dbi_open_ok = true;
}

prepare_mdb_lem_example :
    ((prepare_mdb first_run ≡ all_open) × AllOk first_run) ⊎ (prepare_mdb first_run ≡ nothing_open)
prepare_mdb_lem_example = prepare_mdb_lem first_run
