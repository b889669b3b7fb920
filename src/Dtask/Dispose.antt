-- ===== src/Dtask/Dispose.antt =====
-- rt_dtask_dispose of edfomai-drv-data.c: the loop that drops every entry.
use edfomai.Base.{
  ◌≡◌, refl, ◌∙◌, ◌&&◌, ◌||◌, not, some, List, [], ◌∷◌, arith, ◌==◌, pos, Ptr, Name, null, Items,
  remove, release, has, Distinct, pointers, for_each, Bool-cases, inl, inr, has_self,
}
use edfomai.Platform.{Platform}
use edfomai.World.{World, RtDeadlineTask}
use edfomai.Dtask.{rt_dtask_dispose, drop_entry}
use edfomai.Dtask.Valid.{IsValid, owned}
use edfomai.Dtask.Owned.{without, has-release, release-gone}
use edfomai.Dtask.Drop.{
  release_block, dropped, drop_entry-IsValid, dropped-IsValid, release_block-Distinct,
}

-- What is in use after two blocks were released.
has-both :
    (q p a : Ptr) (live : List Ptr)
    → Distinct live
    → has q (release p (release_block a live))
      ≡ (has q live && not (p == q || (not (a == null) && a == q)))
has-both q p a live once = elim (Bool-cases (p == q)) [
  | inl e ↦
      let gone = release-gone p (release_block a live) (release_block-Distinct a live once) in
      ground (arith, gone)
  | inr e ↦
      rw (has-release p q (release_block a live) e, e)
        (elim (Bool-cases (a == null)) [
          | inl none_left ↦ ground arith
          | inr some_left ↦ elim (Bool-cases (a == q)) [
            | inl same ↦ ground (arith, release-gone a live once)
            | inr other ↦ ground (arith, has-release a q live other)
          ]
        ])
]

remove-head : (n : Name) (p : Ptr) (xs : Items) → remove p ((n, p) ∷ xs) ≡ xs
unfolding remove
remove-head n p xs = ground arith

without-head :
    (n : Name) (p : Ptr) (xs : Items) (d : RtDeadlineTask) (ds : List RtDeadlineTask)
    → without p ((n, p) ∷ xs) (d ∷ ds) ≡ ds
without-head n p xs d ds = ground arith

module _ {P : Platform} where
  open P use {items}

  -- What is left when every entry was dropped.
  pub record Emptied (w : World P) (xs : Items) (ds : List RtDeadlineTask) : Type 0 where
    pub left : World P
    pub valid : IsValid left [] []
    pub calm : left.kernel ≡ w.kernel
    pub freed : (q : Ptr) → has q left.live ≡ (has q w.live && not (has q (owned xs ds)))

  drop_all :
      (xs : Items) (ds : List RtDeadlineTask) (w : World P)
      → IsValid w xs ds
      → (e : Emptied w xs ds) × (for_each (pointers xs) drop_entry w ≡ some (tt, e.left))
  unfolding for_each
  drop_all [] [] w v =
      (record { left = w; valid = v; calm = refl; freed = λ q. ground arith }, refl)
  drop_all [] (d ∷ ds) w v = absurd v.table.stored
  drop_all ((n, p) ∷ xs) [] w v = absurd v.table.stored
  drop_all ((n, p) ∷ xs) (d ∷ ds) w v =
      let at_p = v.table.stored.0 in
      let i = has_self p (pointers xs) in
      let smaller : IsValid (dropped w p d) xs ds =
        rw (remove-head n p xs, without-head n p xs d ds) at (dropped-IsValid p d v at_p i) in
      let (e, done) = drop_all xs ds (dropped w p d) smaller in
      (
        record {
          left = e.left;
          valid = e.valid;
          calm = e.calm;
          freed = λ q. e.freed q ∙ ground (arith, has-both q p d.watchd w.live v.once);
        },
        rw (drop_entry-IsValid p d v at_p i) done,
      )

  -- On a valid table dispose returns 0 without a fault: the table is empty afterwards, exactly the
  -- blocks of the entries and of their alarms were freed, each once, and the kernel is unchanged.
  pub dispose_lem :
      (w : World P) (xs : Items) (ds : List RtDeadlineTask)
      → IsValid w xs ds
      → (e : Emptied w xs ds) × (rt_dtask_dispose w ≡ some (pos 0, e.left))
  unfolding rt_dtask_dispose
  dispose_lem w xs ds v = let (e, done) = drop_all xs ds w v in (e, rw (v.table.listed, done))
