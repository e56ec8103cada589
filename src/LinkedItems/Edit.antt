-- ===== src/LinkedItems/Edit.antt =====
-- `linked_item_append`, `linked_item_create` and `linked_item_remove` on a chain.
use sntools.Base.{◌≡◌, refl, false, some, [], ◌∷◌, ◌==◌, arith}
use sntools.Memory.{
  Ptr, null, item, Heap, write, Points, get_next-ok, get_prev-ok, set_next-ok, set_prev-ok, Returns,
  returns,
}
use sntools.LinkedItems.{append, remove}
use sntools.LinkedItems.Chain.{
  Cells, first, has, Zip, Forward-frame, Backward-frame, Apart-tail, not-has-Apart, Apart-cons,
}

-- What unlinking the first item behind the position leaves.
pub record Removed {A : Type 0} (h : Heap A) (before : Cells A) (p : Ptr) (v : A) (after : Cells A)
    (g : Heap A) : Type 0 where
  pub zip : Zip g before after
  pub unlinked : g p ≡ h p
  pub live : (p == null) ≡ false
  pub not_before : has p before ≡ false
  pub not_after : has p after ≡ false
  pub same : (a : Ptr) → has a before ≡ false → has a after ≡ false → g a ≡ h a

-- What linking the item `p` behind the position leaves.
pub record Inserted {A : Type 0} (h : Heap A) (before : Cells A) (p : Ptr) (v : A) (after : Cells A)
    (g : Heap A) : Type 0 where
  pub zip : Zip g before ((p, v) ∷ after)
  pub same : (a : Ptr) → (a == p) ≡ false → has a before ≡ false → has a after ≡ false → g a ≡ h a

module _ {A : Type 0} {h : Heap A} (p : Ptr) (v : A) where
  -- `linked_item_remove(p)` takes `p` out of the chain, on each of its four branches; the item
  -- itself and all that is outside the chain stay as they were.
  pub remove-Removed :
      (before after : Cells A)
      → Zip h before ((p, v) ∷ after)
      → Returns (λ _. Removed h before p v after) (remove p h)
  unfolding remove write
  remove-Removed [] [] z =
      let e : Points h p (item null null v) = record { live = z.after_ok.0; holds = z.forth.0 } in
      rw (get_prev-ok e, get_next-ok e)
        (returns (record {
          zip = record { back = tt; forth = tt; before_ok = tt; after_ok = tt; apart = tt };
          unlinked = refl;
          live = z.after_ok.0;
          not_before = refl;
          not_after = refl;
          same = λ a _ _. refl;
        }))
  remove-Removed [] ((q, w) ∷ after) z =
      let e : Points h p (item null q v) = record { live = z.after_ok.0; holds = z.forth.0 } in
      let e' : Points h q (item p (first after) w) = record {
        live = z.after_ok.2.0;
        holds = z.forth.1.0;
      } in
      rw (get_prev-ok e, get_next-ok e, e'.live, get_next-ok e, set_prev-ok e' null)
        (returns (record {
          zip = record {
            back = tt;
            forth =
                (ground arith, Forward-frame q after z.forth.1.1 (ground (arith, z.after_ok.2.1)));
            before_ok = tt;
            after_ok = z.after_ok.2;
            apart = tt;
          };
          unlinked = ground (arith, z.after_ok.1);
          live = z.after_ok.0;
          not_before = refl;
          not_after = z.after_ok.1;
          same = ground arith;
        }))
  remove-Removed ((q, w) ∷ before) [] z =
      let e : Points h p (item q null v) = record { live = z.after_ok.0; holds = z.forth.0 } in
      let e' : Points h q (item (first before) p w) = record {
        live = z.before_ok.0;
        holds = z.back.0;
      } in
      rw (get_prev-ok e, get_next-ok e, e'.live, get_prev-ok e, set_next-ok e' null)
        (returns (record {
          zip = record {
            back = (ground arith, Backward-frame q before z.back.1 (ground (arith, z.before_ok.1)));
            forth = tt;
            before_ok = z.before_ok;
            after_ok = tt;
            apart = Apart-tail p v ((q, w) ∷ before) [] z.apart;
          };
          unlinked = ground (arith, z.apart.0);
          live = z.after_ok.0;
          not_before = not-has-Apart p v ((q, w) ∷ before) [] z.apart;
          not_after = refl;
          same = ground arith;
        }))
  remove-Removed ((q, w) ∷ before) ((r, u) ∷ after) z =
      let e : Points h p (item q r v) = record { live = z.after_ok.0; holds = z.forth.0 } in
      let eq : Points h q (item (first before) p w) = record {
        live = z.before_ok.0;
        holds = z.back.0;
      } in
      let er : Points h r (item p (first after) u) = record {
        live = z.after_ok.2.0;
        holds = z.forth.1.0;
      } in
      let out : has r before ≡ false =
        not-has-Apart r u before after (Apart-tail p v before ((r, u) ∷ after) z.apart.1) in
      let h1 : Heap A = write h q (some (item (first before) r w)) in
      let e1 : Points h1 p (item q r v) = record {
        live = e.live;
        holds = ground (arith, z.apart.0);
      } in
      let er1 : Points h1 r (item p (first after) u) = record {
        live = er.live;
        holds = ground (arith, z.apart.0);
      } in
      rw
        (
          get_prev-ok e,
          get_next-ok e,
          eq.live,
          er.live,
          get_prev-ok e,
          get_next-ok e,
          set_next-ok eq r,
          get_next-ok e1,
          get_prev-ok e1,
          set_prev-ok er1 q,
        )
        (returns (record {
          zip = record {
            back = (
              ground (arith, z.apart.0),
              Backward-frame q before z.back.1 (ground (arith, z.before_ok.1, out)),
            );
            forth = (
              ground arith,
              Forward-frame r after z.forth.1.1 (ground (arith, z.apart.0, z.after_ok.2.1)),
            );
            before_ok = z.before_ok;
            after_ok = z.after_ok.2;
            apart = Apart-tail p v ((q, w) ∷ before) ((r, u) ∷ after) z.apart;
          };
          unlinked = ground (arith, z.apart.0, z.after_ok.1);
          live = z.after_ok.0;
          not_before = not-has-Apart p v ((q, w) ∷ before) ((r, u) ∷ after) z.apart;
          not_after = z.after_ok.1;
          same = ground arith;
        }))

  -- `linked_item_append(q, p)` puts the allocated item `p` right behind `q` in the chain, ahead of
  -- what followed, and changes no item outside.
  pub append-Inserted :
      (m n q : Ptr) (w : A) (before after : Cells A)
      → Points h p (item m n v)
      → has p ((q, w) ∷ before) ≡ false
      → has p after ≡ false
      → Zip h ((q, w) ∷ before) after
      → Returns (λ _. Inserted h ((q, w) ∷ before) p v after) (append q p h)
  unfolding append write
  append-Inserted m n q w before [] e nb na z =
      let h1 : Heap A = write h p (some (item null n v)) in
      let e1 : Points h1 p (item null n v) = record { live = e.live; holds = ground arith } in
      let h2 : Heap A = write h1 p (some (item null null v)) in
      let eq2 : Points h2 q (item (first before) null w) = record {
        live = z.before_ok.0;
        holds = ground (arith, z.back.0);
      } in
      let h3 : Heap A = write h2 q (some (item (first before) p w)) in
      let e3 : Points h3 p (item null null v) = record { live = e.live; holds = ground arith } in
      rw
        (
          set_prev-ok e null,
          set_next-ok e1 null,
          eq2.live,
          get_next-ok eq2,
          set_next-ok eq2 p,
          set_prev-ok e3 q,
        )
        (returns (record {
          zip = record {
            back = (ground arith, Backward-frame q before z.back.1 (ground (arith, z.before_ok.1)));
            forth = (ground arith, tt);
            before_ok = z.before_ok;
            after_ok = (e.live, refl, tt);
            apart = Apart-cons p v ((q, w) ∷ before) [] z.apart nb;
          };
          same = ground arith;
        }))
  append-Inserted m n q w before ((r, u) ∷ after) e nb na z =
      let h1 : Heap A = write h p (some (item null n v)) in
      let e1 : Points h1 p (item null n v) = record { live = e.live; holds = ground arith } in
      let h2 : Heap A = write h1 p (some (item null null v)) in
      let e2 : Points h2 p (item null null v) = record { live = e.live; holds = ground arith } in
      let eq2 : Points h2 q (item (first before) r w) = record {
        live = z.before_ok.0;
        holds = ground (arith, z.back.0);
      } in
      let h3 : Heap A = write h2 p (some (item null r v)) in
      let eq3 : Points h3 q (item (first before) r w) = record {
        live = z.before_ok.0;
        holds = ground (arith, z.back.0);
      } in
      let er3 : Points h3 r (item q (first after) u) = record {
        live = z.after_ok.0;
        holds = ground (arith, z.forth.0);
      } in
      let h4 : Heap A = write h3 r (some (item p (first after) u)) in
      let eq4 : Points h4 q (item (first before) r w) = record {
        live = z.before_ok.0;
        holds = ground (arith, z.back.0, z.apart.0);
      } in
      let h5 : Heap A = write h4 q (some (item (first before) p w)) in
      let e5 : Points h5 p (item null r v) = record { live = e.live; holds = ground arith } in
      let out : has r before ≡ false = not-has-Apart r u before after z.apart.1 in
      rw
        (
          set_prev-ok e null,
          set_next-ok e1 null,
          eq2.live,
          get_next-ok eq2,
          z.after_ok.0,
          get_next-ok eq2,
          set_next-ok e2 r,
          get_next-ok eq3,
          set_prev-ok er3 p,
          set_next-ok eq4 p,
          set_prev-ok e5 q,
        )
        (returns (record {
          zip = record {
            back = (
              ground (arith, z.apart.0),
              Backward-frame q before z.back.1 (ground (arith, z.before_ok.1, out)),
            );
            forth = (
              ground (arith, z.apart.0),
              (
                ground (arith, z.apart.0),
                Forward-frame r after z.forth.1 (ground (arith, z.apart.0, z.after_ok.1)),
              ),
            );
            before_ok = z.before_ok;
            after_ok = (e.live, na, z.after_ok);
            apart = Apart-cons p v ((q, w) ∷ before) ((r, u) ∷ after) z.apart nb;
          };
          same = ground arith;
        }))
