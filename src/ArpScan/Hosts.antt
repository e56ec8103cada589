-- ===== src/ArpScan/Hosts.antt =====
-- The hosts of a network as arp-scan lists them, and what a line of one does to the address of another.
use sntools.ArpScan.Stored.{puts_of}
use sntools.Base.{
  ◌++◌, ◌≡◌, ◌⊎◌, refl, sym, ap, ◌∙◌, true, false, Option, List, [], ◌∷◌, arith, inl, inr,
  Bool-cases, Bytes, codes, str_eq, str_eq→eq, contains, is_prefix,
}
use sntools.Mdb.{Lookup, found, Lmdb, with_nul, get_mdb}
use sntools.Mdb.Laws.{LacksNul}
use sntools.ArpScan.{mac_ip_key, stamp_key}
use sntools.ArpScan.Stored.{stored, Readable, IsLine}

-- An address as arp-scan prints it is none of the longer keys that are made of addresses.
pub record IsAddress (a : Bytes) : Type 0 where
  pub plain : contains b'_' a ≡ false
  pub bare : is_prefix (codes "M") a ≡ false

-- What stands at an address can be read.
abbrev pub IsFine : (db : Lmdb) → db.Txn → Type 0
IsFine db t = (a : Bytes) → IsAddress a → Readable (get_mdb db t a)

contains-stamp_key : (name : Bytes) → contains b'_' (stamp_key name) ≡ true
unfolding contains
contains-stamp_key [] = refl
contains-stamp_key (c ∷ name) = ground (arith, contains-stamp_key name)

pub str_eq-stamp_key : (a name : Bytes) → IsAddress a → str_eq a (stamp_key name) ≡ false
str_eq-stamp_key a name h = elim (Bool-cases (str_eq a (stamp_key name))) [
  | inr e ↦ e
  | inl e ↦
      let both : false ≡ true =
        sym h.plain
        ∙ ap (contains b'_') (str_eq→eq a (stamp_key name) e)
        ∙ contains-stamp_key name in
      cc both
]

pub str_eq-record_key : (a mac : Bytes) → IsAddress a → str_eq a (mac_ip_key mac) ≡ false
unfolding is_prefix
str_eq-record_key a mac h = elim (Bool-cases (str_eq a (mac_ip_key mac))) [
  | inr e ↦ e
  | inl e ↦
      let both : false ≡ true =
        sym h.bare ∙ ap (is_prefix (codes "M")) (str_eq→eq a (mac_ip_key mac) e) in
      cc both
]

-- The calls of `putMdb` of a scan, in order.
abbrev pub scan_puts :
    (name_of : Bytes → Bytes) → List (Bytes × Bytes) → List (Bytes × Bytes) → List (Bytes × Bytes)
scan_puts name_of ((ts, line) ∷ lines) ((ip, mac) ∷ hosts) =
    puts_of ip mac (name_of ip) ts ++ scan_puts name_of lines hosts
scan_puts name_of _ _ = []

-- Every address has one name, and an IP address and its MAC address have the same.
module _ (resolve_ip : Bytes → Option Bytes) (name_of : Bytes → Bytes) where
  pub record IsHost (line ip mac : Bytes) : Type 0 where
    pub is_line : IsLine resolve_ip line ip mac (name_of ip)
    pub same : name_of mac ≡ name_of ip
    pub ip_address : IsAddress ip
    pub mac_address : IsAddress mac
    pub name_lacks : LacksNul (name_of ip)

  -- The lines, each with the clock's text, are of these hosts.
  abbrev pub IsScan : List (Bytes × Bytes) → List (Bytes × Bytes) → Type 0
  IsScan [] [] = Unit
  IsScan ((ts, line) ∷ lines) ((ip, mac) ∷ hosts) = IsHost line ip mac × IsScan lines hosts
  IsScan _ _ = ⊥

  -- The address holds its name.
  abbrev pub Named : Bytes → Lookup → Type 0
  Named a lookup = lookup ≡ found (with_nul (name_of a))

  pub stored_address :
      (line ip mac ts a : Bytes) (old : Bytes → Lookup)
      → IsHost line ip mac
      → IsAddress a
      → (stored ip mac (name_of ip) ts old a ≡ old a)
        ⊎ (Named a (stored ip mac (name_of ip) ts old a) × LacksNul (name_of a))
  stored_address line ip mac ts a old h k =
      rw (str_eq-stamp_key a mac k, str_eq-stamp_key a ip k, str_eq-record_key a mac k)
        (elim (Bool-cases (str_eq a mac)) [
          | inl e ↦
              let name : name_of a ≡ name_of ip = ap name_of (str_eq→eq a mac e) ∙ h.same in
              rw (e, name) (inr (refl, h.name_lacks))
          | inr e ↦ elim (Bool-cases (str_eq a ip)) [
            | inl f ↦
                let name : name_of a ≡ name_of ip = ap name_of (str_eq→eq a ip f) in
                rw (e, f, name) (inr (refl, h.name_lacks))
            | inr f ↦ rw (e, f) (inl refl)
          ]
        ])
