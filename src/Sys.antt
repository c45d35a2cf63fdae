-- ===== src/Sys.antt =====
-- lib.rs and the calls of libc. What the code calls of libc and of the kernel is a parameter, a
-- `Libc` over a type of states of the world; results of the library are actions on such a state.
pub mod Mappings
pub mod Descriptors
pub mod Works
pub mod Message
use Prim.Native.Nat.{ℕ, ◌+◌, ◌^◌, ◌%◌, ◌-◌}
use xdpilone.Base.{
  ◌≡◌, refl, Returns, List, [], ◌∷◌, Bool, true, false, Option, Outcome, ok, panic, Profile, zero,
  suc, ltb, leb, if◌then◌else◌,
}
use xdpilone.Memory.{Memory}

-- `c_int`
pub data ℤ : Type 0 where
  pos : ℕ → ℤ
  negsuc : ℕ → ℤ

-- `-n` on `c_int`
abbrev pub neg : ℕ → ℤ
neg zero = pos 0
neg (suc n) = negsuc n

-- `struct Errno(c_int)`; `get_raw` is the field.
pub record Errno : Type 0 where
  pub raw : ℤ

-- What a function that returns a `Result<A, Errno>` leaves; of a panic no state is kept.
pub data Ran (W A : Type 0) : Type 0 where
  returned : A → W → Ran W A
  failed : Errno → W → Ran W A
  panicked : Ran W A

-- What follows a call, where `?` passes a failure on.
unfoldable pub and_then : {W A B : Type 0} → Ran W A → (A → W → Ran W B) → Ran W B
and_then (returned a w) g = g a w
and_then (failed e w) g = failed e w
and_then panicked g = panicked

-- Two calls in a row
infixl 5 ◌>>=◌ ◌>>◌
abbrev pub ◌>>=◌ : {W A B : Type 0} → (W → Ran W A) → (A → W → Ran W B) → W → Ran W B
(f >>= g) w = and_then (f w) g

abbrev pub ◌>>◌ : {W B : Type 0} → (W → Ran W (Unit {0})) → (W → Ran W B) → W → Ran W B
f >> g = f >>= λ _. g

abbrev pub done : {W A : Type 0} → A → W → Ran W A
done a w = returned a w

-- A computation that can only panic.
abbrev pub compute : {W A : Type 0} → Outcome A → W → Ran W A
compute (ok a) w = returned a w
compute panic w = panicked

-- `a + b` on `u64`
abbrev pub add_u64 : Profile → ℕ → ℕ → Outcome ℕ
add_u64 p a b =
    if ltb (a + b) (2 ^ 64)
    then ok (a + b)
    else (if p.overflow_checks then panic else ok ((a + b) % 2 ^ 64))

-- `a - b` on `u64`
abbrev pub sub_u64 : Profile → ℕ → ℕ → Outcome ℕ
sub_u64 p a b =
    if leb b a then ok (a - b) else (if p.overflow_checks then panic else ok (2 ^ 64 + a - b))

-- A buffer that a call fills, as the 64-bit words in it.
abbrev pub Buffer : Type 0
Buffer = ℕ → ℕ

-- The constants and the calls. `mmap` is that with a null address, PROT_READ | PROT_WRITE and
-- MAP_SHARED | MAP_POPULATE, and gives no address for MAP_FAILED; the value that `setsockopt` and
-- `bind` take is the list of its fields. `poll` is for
-- one descriptor with its events and a time, `sendto` for no data and no address; `page_size` is
-- `sysconf(_SC_PAGESIZE)`. `if_indextoname` gives whether the pointer it returns is
-- not null, and the buffer that was passed.
pub record Libc (W : Type 0) : Type 0 where
  pub einval : ℕ
  pub enoprotoopt : ℕ
  pub af_xdp : ℕ
  pub sock_raw : ℕ
  pub sol_socket : ℕ
  pub ifnamsiz : ℕ
  pub msg_dontwait : ℕ
  pub page_size : W → ℕ
  pub memory : W → Memory
  pub errno : W → ℤ
  pub socket : ℕ → ℕ → ℕ → W → ℤ × W
  pub close : ℕ → W → W
  pub setsockopt : ℕ → ℕ → ℕ → List ℕ → ℕ → W → ℤ × W
  pub getsockopt : ℕ → ℕ → ℕ → Buffer → ℕ → W → ℤ × Buffer × ℕ × W
  pub mmap : ℕ → ℕ → ℕ → W → Option ℕ × W
  pub munmap : ℕ → ℕ → W → W
  pub bind : ℕ → List ℕ → ℕ → W → ℤ × W
  pub poll : ℕ → ℕ → ℕ → W → ℤ × W
  pub sendto : ℕ → ℕ → W → ℤ × W
  pub if_nametoindex : List ℕ → W → ℕ × W
  pub if_indextoname : ℕ → List ℕ → W → Bool × List ℕ × W

-- `SOL_XDP` of xsk.rs
abbrev pub sol_xdp : ℕ
sol_xdp = 283

module _ {W : Type 0} (libc : Libc W) where
  -- `Errno::last_os_error`
  abbrev pub last_os_error : W → Errno
  last_os_error w = record { raw = libc.errno w }

  -- `return Err(LastErrno)?`
  abbrev pub fail : {A : Type 0} → W → Ran W A
  fail w = failed (last_os_error w) w

  -- `if call != 0 { return Err(LastErrno)?; }`
  abbrev pub check : ℤ → W → Ran W (Unit {0})
  check (pos zero) w = returned tt w
  check (pos (suc n)) w = fail w
  check (negsuc n) w = fail w

-- How a call ends: with `P` where it returns, `Q` where it fails, and never in a panic.
abbrev pub Ends : {W A : Type 0} → Ran W A → (A → W → Type 0) → (Errno → W → Type 0) → Type 0
Ends (returned a w) P Q = P a w
Ends (failed e w) P Q = Q e w
Ends panicked P Q = ⊥

pub Ends-and_then :
    {W A B : Type 0} (P : A → W → Type 0) (P' : B → W → Type 0) (Q : Errno → W → Type 0)
    (o : Ran W A) (g : A → W → Ran W B)
    → Ends o P Q
    → ((a : A) (w : W) → P a w → Ends (g a w) P' Q)
    → Ends (and_then o g) P' Q
unfolding and_then
Ends-and_then P P' Q (returned a w) g h k = k a w h
Ends-and_then P P' Q (failed e w) g h k = h
Ends-and_then P P' Q panicked g h k = absurd h

pub Ends-map :
    {W A : Type 0} (P P' : A → W → Type 0) (Q Q' : Errno → W → Type 0) (o : Ran W A)
    → Ends o P Q
    → ((a : A) (w : W) → P a w → P' a w)
    → ((e : Errno) (w : W) → Q e w → Q' e w)
    → Ends o P' Q'
Ends-map P P' Q Q' (returned a w) h f g = f a w h
Ends-map P P' Q Q' (failed e w) h f g = g e w h
Ends-map P P' Q Q' panicked h f g = absurd h

-- A computation that cannot panic keeps what holds of the world.
pub compute-Ends :
    {W A : Type 0} (P : W → Type 0) (Q : Errno → W → Type 0) (o : Outcome A) (w : W)
    → Returns o (λ _. Unit {0})
    → P w
    → Ends (compute o w) (λ _ w'. P w') Q
compute-Ends P Q (ok a) w h i = i
compute-Ends P Q panic w h i = absurd h

pub Ends-if :
    {W A : Type 0} (P : A → W → Type 0) (Q : Errno → W → Type 0) (b : Bool) (o o' : Ran W A)
    → Ends o P Q
    → Ends o' P Q
    → Ends (if b then o else o') P Q
Ends-if P Q true o o' h h' = h
Ends-if P Q false o o' h h' = h'
