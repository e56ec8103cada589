-- ===== src/Memory.antt =====
-- The C heap that src/lib/linked_items.c works on: addresses hold items, and a command reads and
-- writes them. A `struct linked_item` is the first member of every list struct, so an item here is
-- the two links with the rest of the struct as its payload.
use sntools.Base.{ℕ, ◌≡◌, false, Option, none, some, ◌==◌, if◌then◌else◌}

abbrev pub Ptr : Type 0
Ptr = ℕ

abbrev pub null : Ptr
null = 0

pub record Item (A : Type 0) : Type 0 where
  pub prev : Ptr
  pub next : Ptr
  pub payload : A

abbrev pub item : {A : Type 0} → Ptr → Ptr → A → Item A
item p n v = record { prev = p; next = n; payload = v }

abbrev pub Heap : Type 0 → Type 0
Heap A = Ptr → Option (Item A)

-- `fault` is undefined behaviour: an access through NULL or to memory that is not allocated.
pub data Run (A B : Type 0) : Type 0 where
  ok : B → Heap A → Run A B
  fault : Run A B
  out_of_fuel : Run A B

abbrev pub Cmd : Type 0 → Type 0 → Type 0
Cmd A B = Heap A → Run A B

module _ {A : Type 0} where
  unfoldable pub write : Heap A → Ptr → Option (Item A) → Heap A
  write h p c a = if a == p then c else h a

  abbrev pub pure : {B : Type 0} → B → Cmd A B
  pure = ok

  abbrev pub and_then : {B C : Type 0} → Run A B → (B → Cmd A C) → Run A C
  and_then (ok b h) k = k b h
  and_then fault k = fault
  and_then out_of_fuel k = out_of_fuel

  infixl 5 ◌>>=◌ ◌>>◌
  abbrev pub ◌>>=◌ : {B C : Type 0} → Cmd A B → (B → Cmd A C) → Cmd A C
  m >>= k = λ h. and_then (m h) k

  abbrev pub ◌>>◌ : {B C : Type 0} → Cmd A B → Cmd A C → Cmd A C
  m >> n = m >>= λ _. n

  unfoldable pub load : Ptr → Cmd A (Item A)
  load p h = if p == null then fault else elim (h p) [ none ↦ fault | some n ↦ ok n h ]

  -- `p->next` and `p->prev`
  unfoldable pub get_next : Ptr → Cmd A Ptr
  unfolding load
  get_next p = do n ← load p; pure n.next

  unfoldable pub get_prev : Ptr → Cmd A Ptr
  unfolding load
  get_prev p = do n ← load p; pure n.prev

  -- `p->next = q` and `p->prev = q`
  unfoldable pub set_next : Ptr → Ptr → Cmd A (Unit {0})
  unfolding load
  set_next p q = do n ← load p; λ h. ok tt (write h p (some (record n { next = q })))

  unfoldable pub set_prev : Ptr → Ptr → Cmd A (Unit {0})
  unfolding load
  set_prev p q = do n ← load p; λ h. ok tt (write h p (some (record n { prev = q })))

  -- `malloc` returned `fresh`; what the memory holds is arbitrary.
  unfoldable pub alloc : Ptr → Item A → Cmd A Ptr
  alloc fresh junk h = if fresh == null then ok null h else ok fresh (write h fresh (some junk))

  unfoldable pub free : Ptr → Cmd A (Unit {0})
  unfolding load
  free p = do n ← load p; λ h. ok tt (write h p none)

-- `p` is the address of the item `n`.
pub record Points {A : Type 0} (h : Heap A) (p : Ptr) (n : Item A) : Type 0 where
  pub live : (p == null) ≡ false
  pub holds : h p ≡ some n

module _ {A : Type 0} {h : Heap A} {p : Ptr} {n : Item A} (e : Points h p n) where
  pub load-ok : load p h ≡ ok n h
  unfolding load
  load-ok = rw (e.live, e.holds)

  pub get_next-ok : get_next p h ≡ ok n.next h
  unfolding get_next
  get_next-ok = rw (e.live, e.holds)

  pub get_prev-ok : get_prev p h ≡ ok n.prev h
  unfolding get_prev
  get_prev-ok = rw (e.live, e.holds)

  pub set_next-ok : (q : Ptr) → set_next p q h ≡ ok tt (write h p (some (item n.prev q n.payload)))
  unfolding set_next
  set_next-ok q = rw (e.live, e.holds)

  pub set_prev-ok : (q : Ptr) → set_prev p q h ≡ ok tt (write h p (some (item q n.next n.payload)))
  unfolding set_prev
  set_prev-ok q = rw (e.live, e.holds)

  pub free-ok : free p h ≡ ok tt (write h p none)
  unfolding free
  free-ok = rw (e.live, e.holds)

-- Total correctness of a run: no fault, enough fuel, and a postcondition.
pub data Returns {A B : Type 0} (P : B → Heap A → Type 0) : Run A B → Type 0 where
  returns : {b : B} {h : Heap A} → P b h → Returns P (ok b h)

module _ {A B : Type 0} {P : B → Heap A → Type 0} where
  pub bind :
      {C : Type 0} {Q : C → Heap A → Type 0} {r : Run A B} {k : B → Cmd A C}
      → Returns P r
      → ((b : B) (h : Heap A) → P b h → Returns Q (k b h))
      → Returns Q (and_then r k)
  bind (returns p) next = next _ _ p

  pub mono :
      {Q : B → Heap A → Type 0} {r : Run A B}
      → Returns P r
      → ((b : B) (h : Heap A) → P b h → Q b h)
      → Returns Q r
  mono (returns p) weaken = returns (weaken _ _ p)
