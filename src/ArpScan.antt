-- ===== src/ArpScan.antt =====
-- src/arp-scan-util.c: what a line of arp-scan does to the database and to the two counters. `none`
-- is undefined behaviour: a missing token, a host name that `resolve_ip` has not written, a failed
-- lookup, a value without NUL, a write past `key[64]`.
pub mod Stored
pub mod Known
pub mod Hosts
pub mod Rescan
mod Tests
use sntools.Base.{
  ℕ, ◌+◌, Bool, true, false, Option, none, some, List, [], ◌∷◌, ◌++◌, if◌then◌else◌, length, ltb,
  ◌==◌, ℤ, pos, negsuc, Bytes, codes, Opts, str_eq, decimal,
}
use sntools.Mdb.{
  Lookup, found, not_found, failed, Lmdb, c_string, get_mdb, put_mdb, Prepared, close_mdb,
}

pub record Config : Type 0 where
  pub interface : Option Bytes
  pub mdb_data_dir : Bytes
  pub verbosity : ℕ

-- One option; the messages are left out.
unfoldable pub set_option : Config → ℕ × Bytes → Config
set_option c (option, arg) =
    if option == b'i'
    then record c { interface = some arg }
    else if option == b'd'
    then record c { mdb_data_dir = arg }
    else if option == b'v'
    then record c { verbosity = 1 }
    else c

unfoldable pub configure : Config → Opts → Config
configure c [] = c
configure c (o ∷ os) = configure (set_option c o) os

infixl 5 ◌>>=◌
abbrev pub ◌>>=◌ {ℓ κ} : {A : Type ℓ} {B : Type κ} → Option A → (A → Option B) → Option B
none >>= f = none
some a >>= f = f a

abbrev pub tab : ℕ
tab = 9

-- `strtok(…, "\t")`: the tabs in front are skipped, the token ends at the next one. The token and
-- what is left, or NULL.
unfoldable pub skip_tabs : Bytes → Bytes
skip_tabs [] = []
skip_tabs (c ∷ rest) = let skipped = skip_tabs rest in if c == tab then skipped else c ∷ rest

unfoldable pub until_tab : Bytes → Bytes × Bytes
until_tab [] = ([], [])
until_tab (c ∷ rest) = let r = until_tab rest in if c == tab then ([], rest) else (c ∷ r.0, r.1)

unfoldable pub strtok : Bytes → Option (Bytes × Bytes)
strtok text = elim (skip_tabs text) [ [] ↦ none | c ∷ rest ↦ some (until_tab (c ∷ rest)) ]

-- The two counters, the transaction, and what was printed.
pub record Scan (db : Lmdb) : Type 0 where
  pub txn : db.Txn
  pub cnt_new_items : ℕ
  pub cnt_changed_items : ℕ
  pub out : Bytes

-- "New IP: …" or "New MAC: …", and "Hostname changed: …"
abbrev pub new_text : (kind key hostname : Bytes) → Bytes
new_text kind key hostname =
    codes "New " ++ kind ++ codes ": " ++ key ++ codes " (Hostname=" ++ hostname ++ codes ")\n"

abbrev pub changed_text : (kind key last hostname : Bytes) → Bytes
changed_text kind key last hostname =
    codes "Hostname changed: old="
    ++ last
    ++ codes ", new="
    ++ hostname
    ++ codes " ("
    ++ kind
    ++ codes "="
    ++ key
    ++ codes ")\n"

abbrev pub mac_ip_key : Bytes → Bytes
mac_ip_key mac = codes "MacIp:" ++ mac

abbrev pub stamp_key : Bytes → Bytes
stamp_key name = name ++ codes "_ts"

-- `sprintf(key, …)` into `key[64]`
abbrev pub fits_key : Bytes → Bool
fits_key key = ltb (length key) 64

module _ (db : Lmdb) where
  -- The check of one key: new, changed, or known with this host name.
  unfoldable pub check_item : (kind key hostname : Bytes) → Scan db → Option (Scan db)
  check_item kind key hostname s = elim (get_mdb db s.txn key) [
    | not_found ↦ some (record s {
      cnt_new_items = s.cnt_new_items + 1;
      out = s.out ++ new_text kind key hostname;
    })
    | failed ↦ none
    | found value ↦ elim (c_string value) [
      | none ↦ none
      | some last ↦
          if str_eq hostname last
          then some s
          else some (record s {
            cnt_changed_items = s.cnt_changed_items + 1;
            out = s.out ++ changed_text kind key last hostname;
          })
    ]
  ]

  abbrev pub put_record : (key value : Bytes) → Scan db → Scan db
  put_record key value s = record s { txn = put_mdb db s.txn key value }

  -- The five records of a host. The third key is shorter than the first.
  unfoldable pub store_item : (ip mac hostname ts : Bytes) → Scan db → Option (Scan db)
  store_item ip mac hostname ts s =
      if fits_key (mac_ip_key mac)
      then if fits_key (stamp_key ip)
        then some (
            put_record (stamp_key mac) ts (
              put_record (stamp_key ip) ts (
                put_record (mac_ip_key mac) ip
                  (put_record mac hostname (put_record ip hostname s)))))
        else none
      else none

  -- What is printed with `-v` only.
  abbrev pub say : (verbosity : ℕ) → Bytes → Scan db → Scan db
  say verbosity text s = record s { out = s.out ++ (if ltb 0 verbosity then text else []) }

  -- A line, with the name that `resolve_ip` finds for each address and the clock's text.
  unfoldable pub process_line :
      (verbosity : ℕ)
      → (resolve_ip : Bytes → Option Bytes) → (ts line : Bytes) → Scan db
      → Option (Scan db)
  process_line verbosity resolve_ip ts line s = do
    (ip, rest) ← strtok line
    (mac, _) ← strtok rest
    hostname ← resolve_ip ip
    s1 ← check_item (codes "IP") ip hostname (
        say verbosity
          (codes "IP: "
            ++ ip
            ++ codes ", MAC: "
            ++ mac
            ++ codes ", Name: "
            ++ hostname
            ++ codes "\n")
          (say verbosity (codes "arp-scan> " ++ line) s))
    s2 ← check_item (codes "MAC") mac hostname s1
    store_item ip mac hostname ts s2

  -- `main`'s loop over the lines of arp-scan.
  unfoldable pub process_lines :
      (verbosity : ℕ)
      → (resolve_ip : Bytes → Option Bytes) → List (Bytes × Bytes)
      → Scan db
      → Option (Scan db)
  process_lines verbosity resolve_ip [] s = some s
  process_lines verbosity resolve_ip ((ts, line) ∷ lines) s = do
    s1 ← process_line verbosity resolve_ip ts line s
    process_lines verbosity resolve_ip lines s1

  -- What `main` prints at its end.
  unfoldable pub summary : Scan db → Bytes
  summary s =
      (if s.cnt_new_items == 0
        then codes "No new items detected\n"
        else codes "Notice: " ++ decimal s.cnt_new_items ++ codes " new items detected\n")
      ++ (if s.cnt_changed_items == 0
          then codes "No changes detected\n"
          else codes "Notice: " ++ decimal s.cnt_changed_items ++ codes " changes detected\n")

  abbrev pub begin : db.Txn → Scan db
  begin t = record { txn = t; cnt_new_items = 0; cnt_changed_items = 0; out = [] }

  -- `main` with the database open and arp-scan started: what it prints, the transaction that
  -- `closeMdb` commits, and what is open after that.
  unfoldable pub scan :
      (verbosity : ℕ)
      → (resolve_ip : Bytes → Option Bytes) → List (Bytes × Bytes)
      → db.Txn
      → Prepared
      → Option (Bytes × db.Txn × Prepared)
  scan verbosity resolve_ip lines t p = do
    s ← process_lines verbosity resolve_ip lines (begin t)
    some (s.out ++ summary s, s.txn, close_mdb p)
