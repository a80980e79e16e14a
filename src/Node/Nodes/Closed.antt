-- ===== src/Node/Nodes/Closed.antt =====
-- Close after a Start.
use v2bx_outbound.Base.{
  ℕ, suc, ◌≤◌, eqb, eqb_iff, true, Option, none, some, List, [], ◌∷◌, String, ◌≡◌, refl, arith,
  length, Option-cases, inl, inr,
}
use v2bx_outbound.Node.Controller.{Core, Controller}
use v2bx_outbound.Node.Controller.Start.{start, close_node}
use v2bx_outbound.Node.Nodes.{
  Shared, NodeConfig, all_started, enter, leave, nils, start_nodes, close_nodes,
}

-- The number of controllers that were made.
abbrev pub count_made : {A : Type 0} → List (Option A) → ℕ
count_made [] = 0
count_made (none ∷ l) = count_made l
count_made (some a ∷ l) = suc (count_made l)

count_made-le : {A : Type 0} (l : List (Option A)) → count_made l ≤ length l
count_made-le [] = omega arith
count_made-le (none ∷ l) = omega (arith, count_made-le l)
count_made-le (some a ∷ l) = omega (arith, count_made-le l)

module _ {S B R : Type 0} (core : Core S) (compile : String → Option R) where
  -- Where DelNode does not fail, a nil controller is what Close panics at.
  close_nodes-made :
      ((tag : String) (s : S) → (core.del_node tag s).1 ≡ true)
      → (controllers : List (Option (Controller S B R))) (w : Shared S B R)
      → (close_nodes core compile controllers w).1
        ≡ eqb (count_made controllers) (length controllers)
  unfolding close_nodes close_node
  close_nodes-made deletes [] w = refl
  close_nodes-made deletes (none ∷ controllers) w = ground (
    arith,
    count_made-le controllers,
    eqb_iff (count_made controllers) (suc (length controllers)),
  )
  close_nodes-made deletes (some c ∷ controllers) w =
      let closed = close_node core compile true (enter w c) in
      let n = count_made controllers in
      let m = length controllers in
      ground (
        arith,
        deletes c.tag w.server,
        close_nodes-made deletes controllers (leave closed.0),
        eqb_iff n m,
        eqb_iff (suc n) (suc m),
      )

  length-nils : (nodes : List (NodeConfig S B R)) → length (nils nodes) ≡ length nodes
  length-nils [] = refl
  length-nils (n ∷ nodes) = ground (arith, length-nils nodes)

  length-start_nodes :
      (nodes : List (NodeConfig S B R)) (w : Shared S B R)
      → length (start_nodes core compile nodes w).0 ≡ length nodes
  unfolding start_nodes
  length-start_nodes [] w = refl
  length-start_nodes (n ∷ nodes) w = elim (Option-cases n.made) [
    | inl e ↦ ground (arith, e, length-nils nodes)
    | inr (c, e) ↦
        let r = start core compile n.cert_ready n.answers (enter w c) in
        ground (arith, e, length-nils nodes, length-start_nodes nodes (leave r.0))
  ]

  -- A Start without an error has made all controllers.
  start_nodes-all_started :
      (nodes : List (NodeConfig S B R)) (w : Shared S B R)
      → (start_nodes core compile nodes w).2 ≡ all_started
      → count_made (start_nodes core compile nodes w).0 ≡ length nodes
  unfolding start_nodes
  start_nodes-all_started [] w h = refl
  start_nodes-all_started (n ∷ nodes) w h = elim (Option-cases n.made) [
    | inl e ↦ ground (arith, e, h)
    | inr (c, e) ↦
        let r = start core compile n.cert_ready n.answers (enter w c) in
        ground (arith, e, h, start_nodes-all_started nodes (leave r.0))
  ]

-- On a core whose DelNode does not fail, Close after a Start does not panic exactly if Start has made all
-- controllers, and a Start without an error has made them.
pub close_nodes_after_start :
    {S B R : Type 0} (core : Core S) (compile : String → Option R) (nodes : List (NodeConfig S B R))
    (w w' : Shared S B R)
    → ((tag : String) (s : S) → (core.del_node tag s).1 ≡ true)
    → let run = start_nodes core compile nodes w in
      ((close_nodes core compile run.0 w').1 ≡ eqb (count_made run.0) (length nodes))
      × (run.2 ≡ all_started → (close_nodes core compile run.0 w').1 ≡ true)
close_nodes_after_start core compile nodes w w' deletes =
    let run = start_nodes core compile nodes w in
    let closes = close_nodes-made core compile deletes run.0 w' in
    let same = length-start_nodes core compile nodes w in
    (
      ground (arith, closes, same),
      λ h. ground (
        arith,
        closes,
        same,
        start_nodes-all_started core compile nodes w h,
        eqb_iff (count_made run.0) (length run.0),
      ),
    )
