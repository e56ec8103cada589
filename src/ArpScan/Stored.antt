-- ===== src/ArpScan/Stored.antt =====
-- What the database holds of a host that was scanned, and what arp-history prints of it.
use sntools.Base.{
  ℕ, ◌+◌, ◌≡◌, refl, ap, ◌∙◌, true, false, Option, none, some, List, [], ◌∷◌, ◌++◌, arith,
  if◌then◌else◌, inl, inr, Bool-cases, Bytes, codes, ltb, append_assoc, append-nil, str_eq,
}
use sntools.Mdb.{
  Lookup, found, not_found, failed, Lmdb, IsStore, with_nul, c_string, get_mdb, put_mdb,
}
use sntools.Mdb.Laws.{after, Taken, get_mdb-put_mdb}
use sntools.ArpScan.{
  Scan, new_text, changed_text, strtok, check_item, mac_ip_key, stamp_key, fits_key, store_item,
  process_line,
}

-- What a key holds after the five puts, the last one first.
abbrev pub stored : (ip mac hostname ts : Bytes) → (Bytes → Lookup) → Bytes → Lookup
stored ip mac hostname ts old j =
    if str_eq j (stamp_key mac)
    then found (with_nul ts)
    else if str_eq j (stamp_key ip)
    then found (with_nul ts)
    else if str_eq j (mac_ip_key mac)
    then found (with_nul ip)
    else if str_eq j mac
    then found (with_nul hostname)
    else if str_eq j ip
    then found (with_nul hostname)
    else old j

-- A name is shorter than a key made of it.
pub str_eq-longer : (a : Bytes) (c : ℕ) (b : Bytes) → str_eq a (a ++ c ∷ b) ≡ false
unfolding str_eq
str_eq-longer [] c b = refl
str_eq-longer (d ∷ a) c b = ground (arith, str_eq-longer a c b)

-- The five calls of `putMdb` for a host, in order.
abbrev pub puts_of : (ip mac hostname ts : Bytes) → List (Bytes × Bytes)
puts_of ip mac hostname ts =
    (ip, hostname)
    ∷ (mac, hostname)
    ∷ (mac_ip_key mac, ip)
    ∷ (stamp_key ip, ts)
    ∷ (stamp_key mac, ts)
    ∷ []

module _ (db : Lmdb) (laws : IsStore db) where
  store_item-stored :
      (ip mac hostname ts : Bytes) (s : Scan db)
      → fits_key (mac_ip_key mac) ≡ true
      → fits_key (stamp_key ip) ≡ true
      → Taken db s.txn (puts_of ip mac hostname ts)
      → (s' : Scan db) × (store_item db ip mac hostname ts s ≡ some s')
        × ((j : Bytes) → get_mdb db s'.txn j ≡ stored ip mac hostname ts (get_mdb db s.txn) j)
        × (s'.cnt_new_items ≡ s.cnt_new_items)
        × (s'.cnt_changed_items ≡ s.cnt_changed_items)
        × (s'.out ≡ s.out)
        × (s'.txn ≡ after db s.txn (puts_of ip mac hostname ts))
  unfolding store_item
  store_item-stored ip mac hostname ts s h k (p1, (p2, (p3, (p4, (p5, _))))) =
      let t1 = put_mdb db s.txn ip hostname in
      let t2 = put_mdb db t1 mac hostname in
      let t3 = put_mdb db t2 (mac_ip_key mac) ip in
      let t4 = put_mdb db t3 (stamp_key ip) ts in
      let t5 = put_mdb db t4 (stamp_key mac) ts in
      let law = get_mdb-put_mdb db laws in
      (
        record s { txn = t5 },
        rw (h, k) refl,
        λ j.
            rw
              (
                law t4 (stamp_key mac) ts j p5,
                law t3 (stamp_key ip) ts j p4,
                law t2 (mac_ip_key mac) ip j p3,
                law t1 mac hostname j p2,
                law s.txn ip hostname j p1,
              )
              refl,
        refl,
        refl,
        refl,
        refl,
      )

-- A lookup that the program can use: no error, and a value with a NUL.
abbrev pub Readable : Lookup → Type 0
Readable not_found = Unit
Readable failed = ⊥
Readable (found value) = (s : Bytes) × (c_string value ≡ some s)

abbrev pub news : Lookup → ℕ
news not_found = 1
news _ = 0

abbrev differs : Bytes → Option Bytes → ℕ
differs hostname none = 0
differs hostname (some last) = if str_eq hostname last then 0 else 1

abbrev pub changes : (hostname : Bytes) → Lookup → ℕ
changes hostname (found value) = differs hostname (c_string value)
changes hostname _ = 0

-- What is printed for a lookup.
abbrev renamed : (kind key hostname : Bytes) → Option Bytes → Bytes
renamed kind key hostname none = []
renamed kind key hostname (some last) =
    if str_eq hostname last then [] else changed_text kind key last hostname

abbrev pub notice : (kind key hostname : Bytes) → Lookup → Bytes
notice kind key hostname not_found = new_text kind key hostname
notice kind key hostname failed = []
notice kind key hostname (found value) = renamed kind key hostname (c_string value)

-- What is printed with `-v`.
abbrev echo : (verbosity : ℕ) → (line ip mac hostname : Bytes) → Bytes
echo verbosity line ip mac hostname =
    (if ltb 0 verbosity then codes "arp-scan> " ++ line else [])
    ++ (if ltb 0 verbosity
        then codes "IP: "
          ++ ip
          ++ codes ", MAC: "
          ++ mac
          ++ codes ", Name: "
          ++ hostname
          ++ codes "\n"
        else [])

-- A scan counts what its lookups are and says so, and keeps the database.
record Checked (db : Lmdb) (kind key hostname : Bytes) (lookup : Lookup) (s s1 : Scan db)
    : Type 0 where
  said : s1.out ≡ s.out ++ notice kind key hostname lookup
  kept : s1.txn ≡ s.txn
  new : s1.cnt_new_items ≡ s.cnt_new_items + news lookup
  changed : s1.cnt_changed_items ≡ s.cnt_changed_items + changes hostname lookup

-- What a line of arp-scan says of a host.
pub record IsLine (resolve_ip : Bytes → Option Bytes) (line ip mac hostname : Bytes) : Type 0 where
  pub rest : Bytes
  pub vendor : Bytes
  pub first : strtok line ≡ some (ip, rest)
  pub second : strtok rest ≡ some (mac, vendor)
  pub named : resolve_ip ip ≡ some hostname
  pub mac_fits : fits_key (mac_ip_key mac) ≡ true
  pub ip_fits : fits_key (stamp_key ip) ≡ true

module _ (db : Lmdb) (kind hostname : Bytes) where
  checked :
      (lookup : Lookup) (key : Bytes) (s : Scan db)
      → get_mdb db s.txn key ≡ lookup
      → Readable lookup
      → (s1 : Scan db) × (check_item db kind key hostname s ≡ some s1)
        × Checked db kind key hostname lookup s s1
  unfolding check_item
  checked not_found key s e r = (
    record s { cnt_new_items = s.cnt_new_items + 1; out = s.out ++ new_text kind key hostname },
    rw (e, check_item) refl,
    record { said = refl; kept = refl; new = refl; changed = omega arith },
  )
  checked failed key s e r = elim r [ ]
  checked (found value) key s e (last, k) = elim (Bool-cases (str_eq hostname last)) [
    | inl same ↦ (
      s,
      rw (e, check_item, k, same) refl,
      record {
        said = rw (k, same, append-nil s.out) refl;
        kept = refl;
        new = omega arith;
        changed = rw (k, same) (omega arith);
      },
    )
    | inr other ↦ (
      record s {
        cnt_changed_items = s.cnt_changed_items + 1;
        out = s.out ++ changed_text kind key last hostname;
      },
      rw (e, check_item, k, other) refl,
      record {
        said = rw (k, other) refl;
        kept = refl;
        new = omega arith;
        changed = rw (k, other) refl;
      },
    )
  ]

-- What a line leaves behind.
pub record Scanned (db : Lmdb) (verbosity : ℕ) (line ip mac hostname ts : Bytes) (s s' : Scan db)
    : Type 0 where
  pub txn_after : s'.txn ≡ after db s.txn (puts_of ip mac hostname ts)
  pub printed :
      s'.out
      ≡ ((s.out ++ echo verbosity line ip mac hostname)
          ++ notice (codes "IP") ip hostname (get_mdb db s.txn ip))
        ++ notice (codes "MAC") mac hostname (get_mdb db s.txn mac)
  pub records : (j : Bytes) → get_mdb db s'.txn j ≡ stored ip mac hostname ts (get_mdb db s.txn) j
  pub new :
      s'.cnt_new_items
      ≡ s.cnt_new_items + (news (get_mdb db s.txn ip) + news (get_mdb db s.txn mac))
  pub changed :
      s'.cnt_changed_items
      ≡ s.cnt_changed_items
        + (changes hostname (get_mdb db s.txn ip) + changes hostname (get_mdb db s.txn mac))

module _ (db : Lmdb) (laws : IsStore db) where
  -- A line with two tokens, an address that has a name and keys that fit, on a database in which the
  -- two old records can be read, and none of whose five calls of `putMdb` fails (the key is not too long
  -- for LMDB, and neither the map nor the transaction is full): the line is processed, its five records hold the new values and all
  -- other keys what they held, the counters have grown by the addresses that were not there and by
  -- those that had another name, and both are reported.
  pub process_line-Scanned :
      (verbosity : ℕ) (resolve_ip : Bytes → Option Bytes) (line ip mac hostname ts : Bytes)
      (s : Scan db)
      → IsLine resolve_ip line ip mac hostname
      → Taken db s.txn (puts_of ip mac hostname ts)
      → Readable (get_mdb db s.txn ip)
      → Readable (get_mdb db s.txn mac)
      → (s' : Scan db) × (process_line db verbosity resolve_ip ts line s ≡ some s')
        × Scanned db verbosity line ip mac hostname ts s s'
  unfolding process_line
  process_line-Scanned verbosity resolve_ip line ip mac hostname ts s l taken p q =
      let told : Scan db = record s {
        out =
            (s.out ++ (if ltb 0 verbosity then codes "arp-scan> " ++ line else []))
            ++ (if ltb 0 verbosity
                then codes "IP: "
                  ++ ip
                  ++ codes ", MAC: "
                  ++ mac
                  ++ codes ", Name: "
                  ++ hostname
                  ++ codes "\n"
                else []);
      } in
      let (s1, e1, c1) = checked db (codes "IP") hostname (get_mdb db s.txn ip) ip told refl p in
      let (s2, e2, c2) =
        checked db (codes "MAC") hostname (get_mdb db s.txn mac) mac s1
          (ap (λ t. get_mdb db t mac) c1.kept) q in
      let same : s2.txn ≡ s.txn = c2.kept ∙ c1.kept in
      let taken2 : Taken db s2.txn (puts_of ip mac hostname ts) = rw same taken in
      let (s3, e3, stores, n, c, o, t) =
        store_item-stored db laws ip mac hostname ts s2 l.mac_fits l.ip_fits taken2 in
      (
        s3,
        rw (l.first, l.second, l.named, e1, e2) e3,
        record {
          txn_after = t ∙ ap (λ x. after db x (puts_of ip mac hostname ts)) same;
          printed =
              o
              ∙ c2.said
              ∙ ap (λ t. t ++ notice (codes "MAC") mac hostname (get_mdb db s.txn mac))
                  (c1.said
                    ∙ ap (λ t. t ++ notice (codes "IP") ip hostname (get_mdb db s.txn ip))
                        (append_assoc s.out _ _));
          records = λ j. stores j ∙ ap (λ t. stored ip mac hostname ts (get_mdb db t) j) same;
          new = omega (arith, n, c1.new, c2.new);
          changed = omega (arith, c, c1.changed, c2.changed);
        },
      )
