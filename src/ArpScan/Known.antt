-- ===== src/ArpScan/Known.antt =====
-- A host that was scanned is known: arp-history lists it.
use sntools.Base.{
  length-append, [], ◌∷◌, ◌++◌, ℕ, ◌+◌, ◌≡◌, refl, ap, ◌∙◌, true, false, Option, some, arith,
  length, ltb, inl, inr, Bool-cases, Bytes, codes, str_eq, str_eq→eq, str_eq_refl,
}
use sntools.Mdb.{Lookup, found, Lmdb, IsStore, with_nul, get_mdb}
use sntools.Mdb.Laws.{Taken, LacksNul, c_string-with_nul}
use sntools.ArpScan.{Scan, mac_ip_key, stamp_key, process_line}
use sntools.ArpScan.Stored.{
  puts_of, stored, str_eq-longer, Readable, changes, IsLine, process_line-Scanned,
}
use sntools.ArpHistory.{◌>>=◌, Config, ts_key, output}

-- Keys that are made of one address are not the other one.
pub record Apart (ip mac : Bytes) : Type 0 where
  pub ip_stamp : str_eq ip (stamp_key mac) ≡ false
  pub ip_record : str_eq ip (mac_ip_key mac) ≡ false
  pub mac_stamp : str_eq mac (stamp_key ip) ≡ false

str_eq-mac_ip_key : (mac : Bytes) → str_eq mac (mac_ip_key mac) ≡ false
str_eq-mac_ip_key mac = elim (Bool-cases (str_eq mac (mac_ip_key mac))) [
  | inr e ↦ e
  | inl e ↦
      let no_fit : ⊥ = omega (arith, ap length (str_eq→eq mac (mac_ip_key mac) e)) in
      elim no_fit [ ]
]

module _ (ip mac hostname ts : Bytes) (old : Bytes → Lookup) (apart : Apart ip mac) where
  stored_mac : stored ip mac hostname ts old mac ≡ found (with_nul hostname)
  stored_mac =
      rw
        (
          str_eq-longer mac b'_' (codes "ts"),
          apart.mac_stamp,
          str_eq-mac_ip_key mac,
          str_eq_refl mac,
        )
        refl

pub changes_none :
    (hostname : Bytes) → LacksNul hostname → changes hostname (found (with_nul hostname)) ≡ 0
changes_none hostname h = rw (c_string-with_nul hostname h, str_eq_refl hostname) refl

module _ (db : Lmdb) (laws : IsStore db) where
  -- A query for a name whose time is in the database.
  query-found :
      (t : db.Txn) (date : Bytes → Bytes) (c : Config) (q ts : Bytes)
      → ts_key q ≡ some (stamp_key q)
      → LacksNul ts
      → get_mdb db t (stamp_key q) ≡ found (with_nul ts)
      → output db t date (record c { query = some q })
        ≡ some ((codes "Last seen at: " ++ ts ++ codes "\n") ∷ [])
  unfolding output
  query-found t date c q ts k n e = rw (k, output, ◌>>=◌, e, c_string-with_nul ts n) refl

  -- Behind a line of arp-scan-util none of whose puts fails, the query of arp-history for either address of the host, whatever its
  -- other options, prints the time of that line.
  pub process_line-last_seen :
      (verbosity : ℕ) (date : Bytes → Bytes) (resolve_ip : Bytes → Option Bytes)
      (line ip mac hostname ts : Bytes) (s : Scan db) (c : Config)
      → IsLine resolve_ip line ip mac hostname
      → LacksNul ts
      → Taken db s.txn (puts_of ip mac hostname ts)
      → Readable (get_mdb db s.txn ip)
      → Readable (get_mdb db s.txn mac)
      → (s1 : Scan db) × (process_line db verbosity resolve_ip ts line s ≡ some s1)
        × (output db s1.txn date (record c { query = some ip })
            ≡ some ((codes "Last seen at: " ++ ts ++ codes "\n") ∷ []))
        × (output db s1.txn date (record c { query = some mac })
            ≡ some ((codes "Last seen at: " ++ ts ++ codes "\n") ∷ []))
  unfolding ts_key
  process_line-last_seen verbosity date resolve_ip line ip mac hostname ts s c l k taken p q =
      let (s1, e, d) =
        process_line-Scanned db laws verbosity resolve_ip line ip mac hostname ts s l taken p q in
      let at_mac : get_mdb db s1.txn (stamp_key mac) ≡ found (with_nul ts) =
        d.records (stamp_key mac) ∙ rw (str_eq_refl (stamp_key mac)) refl in
      let at_ip : get_mdb db s1.txn (stamp_key ip) ≡ found (with_nul ts) =
        d.records (stamp_key ip) ∙ elim (Bool-cases (str_eq (stamp_key ip) (stamp_key mac))) [
          | inl f ↦ rw f refl
          | inr f ↦ rw (f, str_eq_refl (stamp_key ip)) refl
        ] in
      let mac_short : ltb (length mac + 3) 64 ≡ true = ground (arith, l.mac_fits) in
      let ip_short : ltb (length ip + 3) 64 ≡ true =
        ground (arith, l.ip_fits, length-append ip (codes "_ts")) in
      (
        s1,
        e,
        query-found s1.txn date c ip ts (rw ip_short refl) k at_ip,
        query-found s1.txn date c mac ts (rw mac_short refl) k at_mac,
      )
