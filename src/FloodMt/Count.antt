-- ===== src/FloodMt/Count.antt =====
-- The counters of examples/flood-mt.rs, whatever the order of the threads' steps.
use xdpilone.Base.{
  ℕ, zero, suc, ◌+◌, ◌-◌, ◌≤◌, ◌≡◌, ◌⊎◌, inl, refl, ap, arith, List, [], ◌∷◌, ◌++◌, Returns,
  Returns-at, Returns-map, Profile, IsU32,
}
use xdpilone.Flood.{repeat}
use xdpilone.FloodMt.{
  Sender, loops, reserved, handed, gave_back, left, Completer, looks, chose, reaped, quit, Threads,
  share, comp_batch_of, reserve_share, give_back, Step, leave, reserve, transmit, restore,
  count_sent, stop, choose, reap, count_completed, start_threads,
}

abbrev pub sum : {A : Type 0} → (A → ℕ) → List A → ℕ
sum f [] = 0
sum f (x ∷ xs) = f x + sum f xs

sum-at :
    {A : Type 0} (f : A → ℕ) (xs : List A) (x : A) (ys : List A)
    → sum f (xs ++ (x ∷ ys)) ≡ f x + sum f (xs ++ ys)
sum-at f [] x ys = refl
sum-at f (y ∷ xs) x ys = omega (arith, sum-at f xs x ys)

sum-le :
    {A : Type 0} (f g h : A → ℕ) (le : (x : A) → f x ≤ g x + h x) (xs : List A)
    → sum f xs ≤ sum g xs + sum h xs
sum-le f g h le [] = omega arith
sum-le f g h le (x ∷ xs) = omega (arith, le x, sum-le f g h le xs)

sum-repeat : {A : Type 0} (f : A → ℕ) (x : A) → f x ≡ 0 → (n : ℕ) → sum f (repeat n x) ≡ 0
sum-repeat f x e zero = refl
sum-repeat f x e (suc n) = omega (arith, e, sum-repeat f x e n)

-- The places of `sent_reserved` that `sent` does not count yet.
abbrev pub owed : Sender → ℕ
owed loops = 0
owed (reserved n) = n
owed (handed n k) = n
owed (gave_back k) = k
owed left = 0

-- The packets handed to the kernel that `sent` does not count yet.
abbrev pub uncounted : Sender → ℕ
uncounted loops = 0
uncounted (reserved n) = 0
uncounted (handed n k) = k
uncounted (gave_back k) = k
uncounted left = 0

-- The packets sent beyond the places reserved.
abbrev over : Sender → ℕ
over loops = 0
over (reserved n) = 0
over (handed n k) = k - n
over (gave_back k) = 0
over left = 0

abbrev pub has_left : Sender → ℕ
has_left loops = 0
has_left (reserved n) = 0
has_left (handed n k) = 0
has_left (gave_back k) = 0
has_left left = 1

-- The completions read that `completed` does not count yet.
abbrev pub unreported : Completer → ℕ
unreported looks = 0
unreported (chose n) = 0
unreported (reaped k) = k
unreported quit = 0

abbrev pub has_quit : Completer → ℕ
has_quit looks = 0
has_quit (chose n) = 0
has_quit (reaped k) = 0
has_quit quit = 1

uncounted-le : (x : Sender) → uncounted x ≤ owed x + over x
uncounted-le loops = omega arith
uncounted-le (reserved n) = omega arith
uncounted-le (handed n k) = omega arith
uncounted-le (gave_back k) = omega arith
uncounted-le left = omega arith

-- What holds of the counters between the steps. `reserved`: a place is counted as sent, or owed by
-- one thread. `reported`: a packet in the kernel's hands is under way, read, or counted as completed.
pub record IsCounted (total : ℕ) (s : Threads) : Type 0 where
  pub reserved_for : s.sent_reserved ≡ s.sent + sum owed s.senders
  pub reported :
      s.sent + sum uncounted s.senders ≡ s.completed + s.under_way + sum unreported s.completers
  pub at_most : s.sent_reserved ≤ total
  pub honest : sum over s.senders ≡ 0
  pub ended : (sum has_left s.senders + sum has_quit s.completers ≡ 0) ⊎ (total ≤ s.completed)

pub start-IsCounted : (total n k : ℕ) → IsCounted total (start_threads n k)
start-IsCounted total n k = record {
  reserved_for = omega (arith, sum-repeat owed loops refl n);
  reported = omega (arith, sum-repeat uncounted loops refl n, sum-repeat unreported looks refl k);
  at_most = omega arith;
  honest = sum-repeat over loops refl n;
  ended = inl (omega (arith, sum-repeat has_left loops refl n, sum-repeat has_quit looks refl k));
}

pub sum-change :
    {A : Type 0} (f : A → ℕ) {l : List A} (xs : List A) (x y : A) (ys : List A)
    → l ≡ xs ++ (x ∷ ys)
    → sum f (xs ++ (y ∷ ys)) + f x ≡ sum f l + f y
sum-change f {l} xs x y ys e = omega (arith, ap (sum f) e, sum-at f xs x ys, sum-at f xs y ys)

pub sum-part :
    {A : Type 0} (f : A → ℕ) {l : List A} (xs : List A) (x : A) (ys : List A)
    → l ≡ xs ++ (x ∷ ys)
    → f x ≤ sum f l
sum-part f xs x ys e = omega (arith, ap (sum f) e, sum-at f xs x ys)

-- The sums over the senders and over the completers, where one of them goes from `x` to `y`.
record Senders (l l' : List Sender) (x y : Sender) : Type 0 where
  owed_sum : sum owed l' + owed x ≡ sum owed l + owed y
  uncounted_sum : sum uncounted l' + uncounted x ≡ sum uncounted l + uncounted y
  over_sum : sum over l' + over x ≡ sum over l + over y
  left_sum : sum has_left l' + has_left x ≡ sum has_left l + has_left y

Senders-change :
    {l : List Sender} (xs : List Sender) (x y : Sender) (ys : List Sender)
    → l ≡ xs ++ (x ∷ ys)
    → Senders l (xs ++ (y ∷ ys)) x y
Senders-change xs x y ys e = record {
  owed_sum = sum-change owed xs x y ys e;
  uncounted_sum = sum-change uncounted xs x y ys e;
  over_sum = sum-change over xs x y ys e;
  left_sum = sum-change has_left xs x y ys e;
}

record Completers (l l' : List Completer) (x y : Completer) : Type 0 where
  unreported_sum : sum unreported l' + unreported x ≡ sum unreported l + unreported y
  quit_sum : sum has_quit l' + has_quit x ≡ sum has_quit l + has_quit y

Completers-change :
    {l : List Completer} (xs : List Completer) (x y : Completer) (ys : List Completer)
    → l ≡ xs ++ (x ∷ ys)
    → Completers l (xs ++ (y ∷ ys)) x y
Completers-change xs x y ys e = record {
  unreported_sum = sum-change unreported xs x y ys e;
  quit_sum = sum-change has_quit xs x y ys e;
}

-- No packet is counted, read or under way beyond the total.
module _ {total : ℕ} {s : Threads} (c : IsCounted total s) where
  pub sent_reserved : s.sent + sum uncounted s.senders ≤ s.sent_reserved
  sent_reserved =
      omega (arith, c.reserved_for, c.honest, sum-le uncounted owed over uncounted-le s.senders)

  pub sent_total : s.sent + sum uncounted s.senders ≤ total
  sent_total = omega (arith, sent_reserved, c.at_most)

-- Neither of the two updates of `sent_reserved` overflows.
pub reserve_share-Returns :
    (p : Profile) {total : ℕ}
    → IsU32 total
    → (batch n : ℕ) → n ≤ total
    → Returns (reserve_share p total batch n) (λ z. z ≡ n + share total batch n)
unfolding reserve_share
reserve_share-Returns p fits batch n le = ground arith

give_back-Returns :
    (p : Profile) (send_batch sent_now n : ℕ)
    → sent_now ≤ send_batch
    → IsU32 send_batch
    → send_batch - sent_now ≤ n
    → IsU32 n
    → Returns (give_back p send_batch sent_now n) (λ z. z ≡ n - (send_batch - sent_now))
unfolding give_back
give_back-Returns p send_batch sent_now n le fits le' fits' = ground arith

-- A sender can give back the places that it has not used.
pub restores :
    (p : Profile) {total : ℕ} (fits : IsU32 total) {s : Threads} (c : IsCounted total s)
    (xs ys : List Sender) (n k : ℕ)
    → s.senders ≡ xs ++ (handed n k ∷ ys)
    → Returns (give_back p n k s.sent_reserved) (λ z. (z ≡ s.sent_reserved - (n - k)) × (k ≤ n))
restores p fits {s} c xs ys n k e =
    let held : n ≤ sum owed s.senders = sum-part owed xs (handed n k) ys e in
    let fair : k - n ≤ sum over s.senders = sum-part over xs (handed n k) ys e in
    let le : k ≤ n = omega (arith, c.honest) in
    Returns-map (λ z. z ≡ s.sent_reserved - (n - k)) _ (give_back p n k s.sent_reserved)
      (give_back-Returns p n k s.sent_reserved le (omega (arith, c.reserved_for, c.at_most))
        (omega (arith, c.reserved_for)) (omega (arith, c.at_most)))
      (λ z h. (h, le))

module _ (p : Profile) {total : ℕ} (fits : IsU32 total) (batch : ℕ) where
  pub Step-IsCounted :
      {s t : Threads} → Step p total batch s t → IsCounted total s → IsCounted total t
  Step-IsCounted {s} (leave xs ys sent completed e hs hc test) c =
      let a = Senders-change xs loops left ys e in ground (arith, a, test)
  Step-IsCounted {s} (reserve xs ys sent completed next e hs hc test up) c =
      let a = Senders-change xs loops (reserved (share total batch s.sent_reserved)) ys e in
      let r =
        Returns-at (λ z. z ≡ s.sent_reserved + share total batch s.sent_reserved) next
          (reserve_share-Returns p fits batch s.sent_reserved c.at_most) up in
      ground (arith, a, r)
  Step-IsCounted {s} (transmit xs ys n k e le) c =
      let a = Senders-change xs (reserved n) (handed n k) ys e in ground (arith, a)
  Step-IsCounted {s} (restore xs ys n k next e up) c =
      let a = Senders-change xs (handed n k) (gave_back k) ys e in
      let r =
        Returns-at (λ z. (z ≡ s.sent_reserved - (n - k)) × (k ≤ n)) next
          (restores p fits c xs ys n k e) up in
      ground (arith, a, r.0, r.1, sum-part owed xs (handed n k) ys e)
  Step-IsCounted {s} (count_sent xs ys k e) c =
      let a = Senders-change xs (gave_back k) loops ys e in ground (arith, a, sent_total c)
  Step-IsCounted {s} (stop xs ys current e hc same) c =
      let a = Completers-change xs looks quit ys e in ground (arith, a)
  Step-IsCounted {s} (choose xs ys current sent e hc ne hs) c =
      let a = Completers-change xs looks (chose (comp_batch_of batch sent current)) ys e in
      ground (arith, a)
  Step-IsCounted {s} (reap xs ys n k e le le') c =
      let a = Completers-change xs (chose n) (reaped k) ys e in ground (arith, a)
  Step-IsCounted {s} (count_completed xs ys k e) c =
      let a = Completers-change xs (reaped k) looks ys e in ground (arith, a, sent_total c)
