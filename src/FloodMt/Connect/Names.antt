-- ===== src/FloodMt/Connect/Names.antt =====
-- The interfaces of examples/flood-mt.rs on a system where every call succeeds.
use xdpilone.Base.{
  ℕ, suc, ◌<◌, ◌≡◌, refl, sym, ap, ◌∙◌, subst, false, List, [], ◌∷◌, ◌++◌, length, some, arith, All,
}
use xdpilone.Sys.{Libc}
use xdpilone.Sys.Works.{Works, Answers, Carries, Carries-trans, Succeeds, Succeeds-and_then}
use xdpilone.Iface.Info.{IfInfo}
use xdpilone.Flood.Setup.{has_nul, Chosen}
use xdpilone.Flood.Connect.Ready.{ifinfo-Chosen}
use xdpilone.FloodMt.Setup.{MtArgs, args_for, collect_infos, ifinfos}
use xdpilone.FloodMt.Connect.Rounds.{Lacks, Differ}
use xdpilone.FloodMt.Connect.Ready.{info_index}

-- The names fit, and stand for interfaces of different indices, as `index_of` gives them.
pub record AreNames {W : Type 0} (libc : Libc W) (index_of : List ℕ → ℕ) (names : List (List ℕ))
    : Type 0 where
  pub indexed : (name : List ℕ) (w : W) → (libc.if_nametoindex name w).0 ≡ index_of name
  pub clean : All (λ name. has_nul name ≡ false) names
  pub fit : All (λ name. length name < libc.ifnamsiz) names
  pub differ : Differ (λ name. index_of (name ++ (0 ∷ []))) names []

module _ (index_of : List ℕ → ℕ) where
  -- The interfaces have the indices of the names, in their order.
  abbrev pub SameIndices : List (List ℕ) → List IfInfo → Type 0
  SameIndices [] [] = Unit
  SameIndices [] (i ∷ infos) = ⊥
  SameIndices (name ∷ names) [] = ⊥
  SameIndices (name ∷ names) (i ∷ infos) =
      (info_index i ≡ index_of (name ++ (0 ∷ []))) × SameIndices names infos

  pub SameIndices-Differ :
      (names : List (List ℕ)) (infos : List IfInfo) (taken : List ℕ)
      → SameIndices names infos
      → Differ (λ name. index_of (name ++ (0 ∷ []))) names taken
      → (Differ info_index infos taken) × (length infos ≡ length names)
  SameIndices-Differ [] [] taken same d = (tt, refl)
  SameIndices-Differ [] (i ∷ infos) taken same d = absurd same
  SameIndices-Differ (name ∷ names) [] taken same d = absurd same
  SameIndices-Differ (name ∷ names) (i ∷ infos) taken (e, same) (lacks, d) =
      let (rest, n) = SameIndices-Differ names infos (index_of (name ++ (0 ∷ [])) ∷ taken) same d in
      (
        subst (λ j. Lacks j taken × Differ info_index infos (j ∷ taken)) (sym e) (lacks, rest),
        ap suc n,
      )

module _ {W : Type 0} {libc : Libc W} (v : Works libc) (a : Answers libc v) (args : MtArgs)
    (index_of : List ℕ → ℕ)
    (indexed : (name : List ℕ) (w : W) → (libc.if_nametoindex name w).0 ≡ index_of name) where
  collect_infos-Succeeds :
      (names : List (List ℕ)) (w : W)
      → All (λ name. has_nul name ≡ false) names
      → All (λ name. length name < libc.ifnamsiz) names
      → Succeeds
          (collect_infos libc args names w)
          (λ infos w'. SameIndices index_of names infos × Carries v w w')
  collect_infos-Succeeds [] w clean fit = (tt, λ x k. (k, refl))
  collect_infos-Succeeds (name ∷ names) w (clean, cleans) (fits, fit) =
      Succeeds-and_then
        (λ i w1. Chosen libc args.queue_id (name ++ (0 ∷ [])) w i w1 × Carries v w w1) _ _ _
        (ifinfo-Chosen v a (args_for args name) w clean fits)
        λ i w1 (chosen, c1).
          Succeeds-and_then (λ infos w2. SameIndices index_of names infos × Carries v w1 w2) _ _ _
            (collect_infos-Succeeds names w1 cleans fit)
            λ infos w2 (same, c2). (
              (sym (ap (λ o. o.0) chosen.index) ∙ indexed (name ++ (0 ∷ [])) w, same),
              Carries-trans v c1 c2,
            )

  pub ifinfos-Succeeds :
      (w : W)
      → 0 < length args.ifname
      → All (λ name. has_nul name ≡ false) args.ifname
      → All (λ name. length name < libc.ifnamsiz) args.ifname
      → Succeeds (ifinfos libc args w) (λ o w'.
        (infos : List IfInfo) × (o ≡ some infos)
        × SameIndices index_of args.ifname infos
        × Carries v w w')
  unfolding ifinfos
  ifinfos-Succeeds w some_name clean fit = by_names args.ifname refl some_name
    where
      by_names :
          (names : List (List ℕ))
          → args.ifname ≡ names
          → 0 < length names
          → Succeeds (ifinfos libc args w) (λ o w'.
            (infos : List IfInfo) × (o ≡ some infos)
            × SameIndices index_of args.ifname infos
            × Carries v w w')
      by_names [] e some_name = absurd (omega arith)
      by_names (name ∷ names) e some_name = rw e (
          Succeeds-and_then (λ infos w'. SameIndices index_of (name ∷ names) infos × Carries v w w')
            _ _ _
            (collect_infos-Succeeds (name ∷ names) w (subst (All _) e clean) (subst (All _) e fit))
            λ infos w' (same, c). (infos, refl, same, c))
