-- ===== src/Umem/Devices/Control.antt =====
-- `SpinLockedControlSet` of xsk/umem.rs. Its lock makes the operations atomic; the `BTreeSet` in it
-- is a list, of which only the members are observed.
use xdpilone.Base.{
  ◌≡◌, refl, Bool, true, false, not, ◌&&◌, ◌||◌, List, [], ◌∷◌, if◌then◌else◌, arith,
}
use xdpilone.Iface.Info.{IfCtx, same_ctx}

-- `contains`
unfoldable pub contains : IfCtx → List IfCtx → Bool
contains ctx [] = false
contains ctx (x ∷ l) = same_ctx x ctx || contains ctx l

-- `insert`: whether `ctx` is new, and the set.
unfoldable pub insert : IfCtx → List IfCtx → Bool × List IfCtx
insert ctx l = if contains ctx l then (false, l) else (true, ctx ∷ l)

-- `remove`
unfoldable pub remove : IfCtx → List IfCtx → List IfCtx
remove ctx [] = []
remove ctx (x ∷ l) = let rest = remove ctx l in if same_ctx x ctx then rest else x ∷ rest

pub same_ctx_refl : (a : IfCtx) → same_ctx a a ≡ true
unfolding same_ctx
same_ctx_refl a = ground arith

pub same_ctx_sound : (a b : IfCtx) → same_ctx a b ≡ true → a ≡ b
unfolding same_ctx
same_ctx_sound a b h = ground arith

-- `remove` takes out `ctx` and nothing else.
pub contains-remove :
    (c ctx : IfCtx) (l : List IfCtx)
    → contains c (remove ctx l) ≡ (not (same_ctx ctx c) && contains c l)
unfolding contains remove same_ctx
contains-remove c ctx [] = ground arith
contains-remove c ctx (x ∷ l) = ground (arith, contains-remove c ctx l)

-- To remove what is not there changes nothing.
pub remove-absent : (ctx : IfCtx) (l : List IfCtx) → contains ctx l ≡ false → remove ctx l ≡ l
unfolding contains remove
remove-absent ctx [] h = refl
remove-absent ctx (x ∷ l) h = ground (arith, remove-absent ctx l)

pub remove-insert :
    (ctx : IfCtx) (l : List IfCtx) → contains ctx l ≡ false → remove ctx (ctx ∷ l) ≡ l
unfolding remove
remove-insert ctx l h = ground (arith, same_ctx_refl ctx, remove-absent ctx l h)

pub insert-new :
    (ctx : IfCtx) (l : List IfCtx) → contains ctx l ≡ false → insert ctx l ≡ (true, ctx ∷ l)
unfolding insert
insert-new ctx l h = rw h refl

pub insert-taken :
    (ctx : IfCtx) (l : List IfCtx) → contains ctx l ≡ true → insert ctx l ≡ (false, l)
unfolding insert
insert-taken ctx l h = rw h refl
