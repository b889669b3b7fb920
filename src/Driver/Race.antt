-- ===== src/Driver/Race.antt =====
-- The second loop of rt_dtask_recalculateprio (edfomai-drv-data.c) as HASH_ITER runs it: the entry of a
-- pass is left by a pointer to the next one that was fetched a pass before. So another processor can come
-- between, as edf_delete_hook of edfomai-drv.c does, which takes no lock.
pub mod Loop
pub mod Passes
use edfomai.Base.{
  ◌≡◌, Option, none, some, List, [], ◌∷◌, M, pure, ◌>>=◌, ◌>>◌, ◌==◌, if◌then◌else◌, Ptr, Items,
}
use edfomai.Platform.{Platform}
use edfomai.World.{World, Cmd, load}
use edfomai.Recalc.{table}

-- `head`, and `el->hh.next` of an element of the table.
abbrev pub first_item : Items → Option Ptr
first_item [] = none
first_item ((n, p) ∷ xs) = some p

unfoldable pub next_item : Ptr → Items → Option Ptr
next_item p [] = none
next_item p ((n, q) ∷ xs) = if q == p then first_item xs else next_item p xs

module _ {P : Platform} where
  open P use {items}

  -- `tmp = tmp ? tmp->hh.next : NULL`, which reads the block of `tmp`.
  unfoldable pub follow : Option Ptr → Cmd P (Option Ptr)
  follow none = pure none
  follow (some q) = do _ ← load q; map ← table; pure (next_item q (items map))

  -- What another processor does, the body at `el`, and the step of `tmp`.
  unfoldable pub pass :
      Cmd P (Unit {0}) → (Ptr → Cmd P (Unit {0})) → Ptr → Option Ptr → Cmd P (Option Ptr)
  pass other body el tmp = do other; body el; follow tmp

  -- The passes with `el` and `tmp`, each with what comes before its body; there are no more passes
  -- than those.
  unfoldable pub iterate :
      List (Cmd P (Unit {0}))
      → (Ptr → Cmd P (Unit {0}))
      → Option Ptr
      → Option Ptr
      → Cmd P (Unit {0})
  iterate [] body el tmp = pure tt
  iterate (other ∷ others) body none tmp = pure tt
  iterate (other ∷ others) body (some el) tmp = do
    next ← pass other body el tmp
    iterate others body tmp next

  -- The whole loop.
  unfoldable pub hash_iter : List (Cmd P (Unit {0})) → (Ptr → Cmd P (Unit {0})) → Cmd P (Unit {0})
  hash_iter others body = do
    map ← table
    tmp ← follow (first_item (items map))
    iterate others body (first_item (items map)) tmp
