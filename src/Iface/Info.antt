-- ===== src/Iface/Info.antt =====
-- `IfCtx` and `IfInfo` of xsk.rs, and the functions of xsk/iface.rs that set them.
pub mod Set
mod Tests
use xdpilone.Base.{
  ℕ, zero, suc, ◌≤◌, ◌≡◌, refl, ◌==◌, Bool, true, false, not, ◌&&◌, List, [], ◌∷◌, ◌++◌, length,
  drop, ltb, leb, if◌then◌else◌, Outcome, assert, arith, ok, panic,
}
use xdpilone.Sys.{pos, Errno, Ran, returned, failed, panicked, Libc, last_os_error}

-- `struct IfCtx`
pub record IfCtx : Type 0 where
  pub ifindex : ℕ
  pub queue_id : ℕ
  pub netnscookie : ℕ

-- `PartialEq for IfCtx`
unfoldable pub same_ctx : IfCtx → IfCtx → Bool
same_ctx a b = a.ifindex == b.ifindex && a.queue_id == b.queue_id && a.netnscookie == b.netnscookie

-- `struct IfInfo`; the name is an array of IFNAMSIZ characters.
pub record IfInfo : Type 0 where
  pub ctx : IfCtx
  pub ifname : List ℕ

abbrev pub zeros : ℕ → List ℕ
zeros zero = []
zeros (suc n) = 0 ∷ zeros n

-- `set_queue`
abbrev pub set_queue : ℕ → IfInfo → IfInfo
set_queue queue_id info = record info { ctx = record info.ctx { queue_id = queue_id } }

-- `ifindex` and `queue_id`
abbrev pub ifindex : IfInfo → ℕ
ifindex info = info.ctx.ifindex

abbrev pub queue_id : IfInfo → ℕ
queue_id info = info.ctx.queue_id

module _ {W : Type 0} (libc : Libc W) where
  -- `IfInfo::invalid`
  abbrev pub invalid : IfInfo
  invalid = record {
    ctx = record { ifindex = 0; queue_id = 0; netnscookie = 0 };
    ifname = zeros libc.ifnamsiz;
  }

  -- What follows the call of `if_nametoindex`.
  abbrev pub name_reply : List ℕ → IfInfo → ℕ × W → Ran (IfInfo × W) (Unit {0})
  name_reply bytes info (zero, w) = failed (last_os_error libc w) (info, w)
  name_reply bytes info (suc index, w) = returned tt (
    record {
      ctx = record { ifindex = suc index; queue_id = 0; netnscookie = 0 };
      ifname = bytes ++ drop (length bytes) info.ifname;
    },
    w,
  )

  -- `IfInfo::from_name`, for the bytes of a name, the final NUL included.
  unfoldable pub from_name : List ℕ → IfInfo × W → Ran (IfInfo × W) (Unit {0})
  from_name bytes (info, w) =
      if ltb (length info.ifname) (length bytes)
      then failed (record { raw = pos libc.einval }) (info, w)
      else elim (assert (leb (length bytes) (length info.ifname))) [
        | ok u ↦ name_reply bytes info (libc.if_nametoindex bytes w)
        | panic ↦ panicked
      ]

  -- What follows the call of `if_indextoname`.
  abbrev index_reply : IfInfo → Bool × List ℕ × W → Ran (IfInfo × W) (Unit {0})
  index_reply info (false, ifname, w) =
      failed (last_os_error libc w) (record info { ifname = ifname }, w)
  index_reply info (true, ifname, w) = returned tt (record info { ifname = ifname }, w)

  -- `IfInfo::from_ifindex`
  unfoldable pub from_ifindex : ℕ → IfInfo × W → Ran (IfInfo × W) (Unit {0})
  from_ifindex index (info, w) = index_reply info (libc.if_indextoname index info.ifname w)
