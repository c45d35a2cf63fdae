-- ===== src/FloodMt/Setup.antt =====
-- The interfaces of examples/flood-mt.rs, by the names on its command line.
use xdpilone.Base.{ℕ, suc, ◌≡◌, refl, ap, false, List, [], ◌∷◌, length, Option, none, some, All}
use xdpilone.Sys.{Ran, returned, ◌>>=◌, done, Libc, Ends, Ends-and_then}
use xdpilone.Iface.Info.{IfInfo}
use xdpilone.Flood.Setup.{Args, has_nul, unwrap_or, ifinfo, Chosen, ifinfo_lem}

-- `struct Args`; there may be several names.
pub record MtArgs : Type 0 where
  pub ifname : List (List ℕ)
  pub queue_id : Option ℕ
  pub batch : Option ℕ
  pub total : Option ℕ
  pub length_of : Option ℕ
  pub threads : Option ℕ

-- What one round of the loop in `ifinfo` reads of the options.
abbrev pub args_for : MtArgs → List ℕ → Args
args_for args name = record {
  ifname = name;
  queue_id = args.queue_id;
  batch = args.batch;
  total = args.total;
  length_of = args.length_of;
}

module _ {W : Type 0} (libc : Libc W) (args : MtArgs) where
  -- `for ifname in &args.ifname`
  abbrev pub collect_infos : List (List ℕ) → W → Ran W (List IfInfo)
  collect_infos [] = done []
  collect_infos (name ∷ names) = do
    info ← ifinfo libc (args_for args name)
    infos ← collect_infos names
    done (info ∷ infos)

  -- `ifinfo`; without a name the process exits, which is `none`.
  unfoldable pub ifinfos : W → Ran W (Option (List IfInfo))
  ifinfos w = elim args.ifname [
    | [] ↦ returned none w
    | name ∷ names ↦ (do infos ← collect_infos (name ∷ names); done (some infos)) w
  ]

  -- Where no name has a NUL, there is one interface for a name, each with the queue asked for.
  pub collect_infos_lem :
      (names : List (List ℕ)) (w : W)
      → All (λ name. has_nul name ≡ false) names
      → Ends
          (collect_infos names w)
          (λ infos _.
            (length infos ≡ length names)
            × All (λ i. i.ctx.queue_id ≡ unwrap_or 0 args.queue_id) infos)
          (λ _ _. Unit {0})
  collect_infos_lem [] w clean = (refl, tt)
  collect_infos_lem (name ∷ names) w clean =
      Ends-and_then (λ i w'. Chosen libc args.queue_id _ w i w') _ _ _ _
        (ifinfo_lem libc (args_for args name) w clean.0)
        λ i w' chosen.
          Ends-and_then _ _ _ _ _ (collect_infos_lem names w' clean.1)
            λ infos w'' rest. (ap suc rest.0, (chosen.queue, rest.1))
