-- ===== src/ArpScan/Rescan.antt =====
-- A network that is scanned a second time: nothing of it is new.
use sntools.Base.{
  sym, ℕ, ◌≡◌, refl, ap, ◌∙◌, Option, some, List, [], ◌∷◌, ◌++◌, arith, append-nil, inl, inr,
  Bool-cases, Bytes, codes, str_eq, str_eq_refl, All,
}
use sntools.Mdb.{Lookup, found, Lmdb, IsStore, with_nul, get_mdb, Prepared, close_mdb}
use sntools.Mdb.Laws.{after, after-append, Taken, Taken-split, LacksNul, c_string-with_nul}
use sntools.ArpScan.{Scan, process_lines, summary, begin, scan}
use sntools.ArpScan.Stored.{stored, Readable, news, changes, notice, Scanned, process_line-Scanned}
use sntools.ArpScan.Known.{changes_none}
use sntools.ArpScan.Stored.{puts_of}
use sntools.ArpScan.Hosts.{
  scan_puts, IsFine, IsAddress, str_eq-stamp_key, str_eq-record_key, IsHost, IsScan, Named,
  stored_address,
}

module _ (resolve_ip : Bytes → Option Bytes) (name_of : Bytes → Bytes) where
  module _ (db : Lmdb) (laws : IsStore db) where
    abbrev Known : db.Txn → Bytes → Type 0
    Known t a = Named resolve_ip name_of a (get_mdb db t a)

    abbrev AllKnown : db.Txn → List (Bytes × Bytes) → Type 0
    AllKnown t = All (λ h. Known t h.0 × Known t h.1)

    Named-Readable :
        (a : Bytes) (l : Lookup) → Named resolve_ip name_of a l → LacksNul (name_of a) → Readable l
    Named-Readable a l e h = rw e (name_of a, c_string-with_nul (name_of a) h)

    module _ (verbosity : ℕ) (ts line ip mac : Bytes) (s s1 : Scan db)
        (h : IsHost resolve_ip name_of line ip mac)
        (d : Scanned db verbosity line ip mac (name_of ip) ts s s1) where
      Known-kept : (a : Bytes) → IsAddress a → Known s.txn a → Known s1.txn a
      Known-kept a k e =
          elim (stored_address resolve_ip name_of line ip mac ts a (get_mdb db s.txn) h k) [
            | inl f ↦ d.records a ∙ f ∙ e
            | inr (f, _) ↦ d.records a ∙ f
          ]

      AllKnown-kept :
          (lines hosts : List (Bytes × Bytes))
          → IsScan resolve_ip name_of lines hosts
          → AllKnown s.txn hosts
          → AllKnown s1.txn hosts
      AllKnown-kept [] [] i ks = tt
      AllKnown-kept [] (x ∷ hosts) i ks = elim i [ ]
      AllKnown-kept (l ∷ lines) [] i ks = elim i [ ]
      AllKnown-kept ((t, l) ∷ lines) ((a, m) ∷ hosts) (i, is) ((k, j), ks) = (
        (Known-kept a i.ip_address k, Known-kept m i.mac_address j),
        AllKnown-kept lines hosts is ks,
      )

      IsFine-kept : IsFine db s.txn → IsFine db s1.txn
      IsFine-kept fine a k =
          elim (stored_address resolve_ip name_of line ip mac ts a (get_mdb db s.txn) h k) [
            | inl f ↦ rw (d.records a, f) (fine a k)
            | inr (f, n) ↦ Named-Readable a (get_mdb db s1.txn a) (d.records a ∙ f) n
          ]

      Known-both : Known s1.txn ip × Known s1.txn mac
      Known-both = (d.records ip ∙ at_ip, d.records mac ∙ at_mac)
        where
          at_ip : Named resolve_ip name_of ip (stored ip mac (name_of ip) ts (get_mdb db s.txn) ip)
          at_ip = elim (Bool-cases (str_eq ip mac)) [
            | inl e ↦
                rw
                  (
                    str_eq-stamp_key ip mac h.ip_address,
                    str_eq-stamp_key ip ip h.ip_address,
                    str_eq-record_key ip mac h.ip_address,
                    e,
                  )
                  refl
            | inr e ↦
                rw
                  (
                    str_eq-stamp_key ip mac h.ip_address,
                    str_eq-stamp_key ip ip h.ip_address,
                    str_eq-record_key ip mac h.ip_address,
                    e,
                    str_eq_refl ip,
                  )
                  refl
          ]

          at_mac :
              Named resolve_ip name_of mac (stored ip mac (name_of ip) ts (get_mdb db s.txn) mac)
          at_mac =
              rw
                (
                  str_eq-stamp_key mac mac h.mac_address,
                  str_eq-stamp_key mac ip h.mac_address,
                  str_eq-record_key mac mac h.mac_address,
                  str_eq_refl mac,
                  h.same,
                )
                refl

    -- A first scan makes all its hosts known.
    process_lines-AllKnown :
        (verbosity : ℕ) (lines hosts : List (Bytes × Bytes)) (s : Scan db)
        → IsScan resolve_ip name_of lines hosts
        → Taken db s.txn (scan_puts name_of lines hosts)
        → IsFine db s.txn
        → (s1 : Scan db) × (process_lines db verbosity resolve_ip lines s ≡ some s1)
          × IsFine db s1.txn
          × AllKnown s1.txn hosts
          × ((a : Bytes) → IsAddress a → Known s.txn a → Known s1.txn a)
          × (s1.txn ≡ after db s.txn (scan_puts name_of lines hosts))
    unfolding process_lines
    process_lines-AllKnown verbosity [] [] s i taken fine = (s, refl, fine, tt, (λ a k e. e), refl)
    process_lines-AllKnown verbosity [] (x ∷ hosts) s i taken fine = elim i [ ]
    process_lines-AllKnown verbosity (l ∷ lines) [] s i taken fine = elim i [ ]
    process_lines-AllKnown verbosity ((ts, line) ∷ lines) ((ip, mac) ∷ hosts) s (h, is) taken fine =
        let puts = puts_of ip mac (name_of ip) ts in
        let (now, rest) = Taken-split db s.txn puts (scan_puts name_of lines hosts) taken in
        let (s1, e, d) =
          process_line-Scanned db laws verbosity resolve_ip line ip mac (name_of ip) ts s h.is_line
            now (fine ip h.ip_address) (fine mac h.mac_address) in
        let (k, j) = Known-both verbosity ts line ip mac s s1 h d in
        let later : Taken db s1.txn (scan_puts name_of lines hosts) = rw d.txn_after rest in
        let (s2, f, fine2, ks, keeps, done) =
          process_lines-AllKnown verbosity lines hosts s1 is later
            (IsFine-kept verbosity ts line ip mac s s1 h d fine) in
        (
          s2,
          rw e f,
          fine2,
          ((keeps ip h.ip_address k, keeps mac h.mac_address j), ks),
          (λ a q r. keeps a q (Known-kept verbosity ts line ip mac s s1 h d a q r)),
          done
              ∙ ap (λ t. after db t (scan_puts name_of lines hosts)) d.txn_after
              ∙ sym (after-append db s.txn puts (scan_puts name_of lines hosts)),
        )

    -- A scan of known hosts counts and says nothing.
    process_lines-quiet :
        (lines hosts : List (Bytes × Bytes)) (s : Scan db)
        → IsScan resolve_ip name_of lines hosts
        → Taken db s.txn (scan_puts name_of lines hosts)
        → AllKnown s.txn hosts
        → (s1 : Scan db) × (process_lines db 0 resolve_ip lines s ≡ some s1)
          × (s1.cnt_new_items ≡ s.cnt_new_items)
          × (s1.cnt_changed_items ≡ s.cnt_changed_items)
          × (s1.out ≡ s.out)
    unfolding process_lines
    process_lines-quiet [] [] s i taken ks = (s, refl, refl, refl, refl)
    process_lines-quiet [] (x ∷ hosts) s i taken ks = elim i [ ]
    process_lines-quiet (l ∷ lines) [] s i taken ks = elim i [ ]
    process_lines-quiet ((ts, line) ∷ lines) ((ip, mac) ∷ hosts) s (h, is) taken ((k, j), ks) =
        let puts = puts_of ip mac (name_of ip) ts in
        let (now, rest) = Taken-split db s.txn puts (scan_puts name_of lines hosts) taken in
        let name : LacksNul (name_of mac) = rw h.same h.name_lacks in
        let (s1, e, d) =
          process_line-Scanned db laws 0 resolve_ip line ip mac (name_of ip) ts s h.is_line now
            (Named-Readable ip (get_mdb db s.txn ip) k h.name_lacks)
            (Named-Readable mac (get_mdb db s.txn mac) j name) in
        let at_mac : get_mdb db s.txn mac ≡ found (with_nul (name_of ip)) =
          j ∙ ap (λ n. found (with_nul n)) h.same in
        let silent : (kind a : Bytes)
            → notice kind a (name_of ip) (found (with_nul (name_of ip))) ≡ [] =
          λ kind a.
            rw (c_string-with_nul (name_of ip) h.name_lacks, str_eq_refl (name_of ip)) refl in
        let more : Taken db s1.txn (scan_puts name_of lines hosts) = rw d.txn_after rest in
        let (s2, f, n, c, o) =
          process_lines-quiet lines hosts s1 is more
            (AllKnown-kept 0 ts line ip mac s s1 h d lines hosts is ks) in
        (
          s2,
          rw e f,
          omega (arith, n, d.new, ap news k, ap news at_mac),
          omega (
            arith,
            c,
            d.changed,
            ap (changes (name_of ip)) k,
            ap (changes (name_of ip)) at_mac,
            changes_none (name_of ip) h.name_lacks,
          ),
          o
              ∙ d.printed
              ∙ rw (k, at_mac, silent (codes "IP") ip, silent (codes "MAC") mac) (simp append-nil),
        )

    -- A network of hosts with one name for each address, on a database in which what stands at an
    -- address can be read, and two scans in which no call of `putMdb` fails: the first scan ends, with the
    -- database closed. If the next scan, without `-v`, sees what that one has committed, and finds the same
    -- hosts, in whatever lines and at whatever times, then it ends, too, and prints nothing but that there
    -- are no new items and no changes.
    pub scan_again :
        (verbosity : ℕ) (lines later hosts : List (Bytes × Bytes)) (t : db.Txn) (p q : Prepared)
        → IsScan resolve_ip name_of lines hosts
        → IsScan resolve_ip name_of later hosts
        → Taken db t (scan_puts name_of lines hosts ++ scan_puts name_of later hosts)
        → IsFine db t
        → (printed : Bytes) × (t1 t2 : db.Txn) × (scan db verbosity resolve_ip lines t p
            ≡ some (printed, t1, close_mdb p))
          × (scan db 0 resolve_ip later t1 q
              ≡ some (codes "No new items detected\nNo changes detected\n", t2, close_mdb q))
    unfolding scan summary
    scan_again verbosity lines later hosts t p q i j taken fine =
        let (first, second) =
          Taken-split db t (scan_puts name_of lines hosts) (scan_puts name_of later hosts) taken in
        let (s1, e, _, ks, _, done) =
          process_lines-AllKnown verbosity lines hosts (begin db t) i first fine in
        let next : Taken db s1.txn (scan_puts name_of later hosts) = rw done second in
        let (s2, f, n, c, o) = process_lines-quiet later hosts (begin db s1.txn) j next ks in
        (s1.out ++ summary db s1, s1.txn, s2.txn, rw e refl, rw (f, o, n, c) refl)
