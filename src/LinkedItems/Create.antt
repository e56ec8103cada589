-- ===== src/LinkedItems/Create.antt =====
-- `linked_item_create` on each of its paths.
use sntools.Base.{◌≡◌, refl, false, some, [], ◌∷◌, ◌==◌, arith}
use sntools.Memory.{
  Ptr, null, Item, item, Heap, write, fault, alloc, load, set_prev, Points, set_next-ok,
  set_prev-ok, Returns, returns, bind,
}
use sntools.LinkedItems.{append, create}
use sntools.LinkedItems.Chain.{Cells, first, has, Zip, Chain, Forward-frame, Backward-frame}
use sntools.LinkedItems.Edit.{Inserted, append-Inserted}

module _ {A : Type 0} (h : Heap A) (p : Ptr) (junk : Item A) where
  -- A failed `malloc` is undefined behaviour: the links are written through NULL.
  pub create_out_of_memory : (prev : Ptr) → create null junk prev h ≡ fault
  unfolding create alloc append set_prev load
  create_out_of_memory prev = refl

  -- With `prev == NULL` the new item is a chain of its own.
  pub create-null :
      (p == null) ≡ false
      → Returns
          (λ q g.
            (q ≡ p) × Chain g ((p, junk.payload) ∷ []) × ((a : Ptr) → (a == p) ≡ false → g a ≡ h a))
          (create p junk null h)
  unfolding create alloc append write
  create-null live =
      let e : Points (write h p (some junk)) p junk = record {
        live = live;
        holds = ground arith;
      } in
      let e' : Points (write (write h p (some junk)) p (some (item null junk.next junk.payload))) p
          (item null junk.next junk.payload) =
        record { live = live; holds = ground arith } in
      rw (live, set_prev-ok e null, set_next-ok e' null)
        (returns (
          refl,
          record {
            back = tt;
            forth = (ground arith, tt);
            before_ok = tt;
            after_ok = (live, refl, tt);
            apart = tt;
          },
          ground arith,
        ))

  -- Else it stands right behind `prev`, ahead of what followed.
  pub create-Inserted :
      (q : Ptr) (w : A) (before after : Cells A)
      → (p == null) ≡ false
      → has p ((q, w) ∷ before) ≡ false
      → has p after ≡ false
      → Zip h ((q, w) ∷ before) after
      → Returns
          (λ r g. (r ≡ p) × Inserted h ((q, w) ∷ before) p junk.payload after g)
          (create p junk q h)
  unfolding create alloc write
  create-Inserted q w before after live nb na z =
      let h1 : Heap A = write h p (some junk) in
      let e : Points h1 p junk = record { live = live; holds = ground arith } in
      let z1 : Zip h1 ((q, w) ∷ before) after = record {
        back = Backward-frame (first after) ((q, w) ∷ before) z.back (ground (arith, nb));
        forth = Forward-frame q after z.forth (ground (arith, na));
        before_ok = z.before_ok;
        after_ok = z.after_ok;
        apart = z.apart;
      } in
      rw live (
        bind (append-Inserted p junk.payload junk.prev junk.next q w before after e nb na z1)
          λ _ g done.
            returns (
              refl,
              record { zip = done.zip; same = λ a o b c. ground (arith, done.same a o b c) },
            ))
