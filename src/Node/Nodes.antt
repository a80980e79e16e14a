-- ===== src/Node/Nodes.antt =====
-- node/node.go: Start and Close of all nodes of a process. The controllers share the core and the
-- table of limiters, which stand beside them and are handed to each call. What panel.New makes of a
-- node's settings is an argument, `none` for an error.
pub mod Closed
mod Tests
use v2bx_outbound.Base.{Bool, true, false, Option, none, some, List, [], ◌∷◌, String, if◌then◌else◌}
use v2bx_outbound.Limiter.Registry.{Limiters}
use v2bx_outbound.Node.Controller.{Core, Controller}
use v2bx_outbound.Node.Controller.Start.{
  Answers, StartEnd, started, failed, crashed, start, close_node,
}

pub record Shared (S B R : Type 0) : Type 0 where
  pub server : S
  pub limiters : Limiters B R

-- The settings of a node, with what the panel will answer and whether there is a certificate.
pub record NodeConfig (S B R : Type 0) : Type 0 where
  pub made : Option (Controller S B R)
  pub answers : Answers
  pub cert_ready : Bool

-- A nil error, an error, or a nil dereference in a controller.
pub data NodesEnd : Type 0 where
  all_started : NodesEnd
  not_started : NodesEnd
  broken : NodesEnd

abbrev pub enter : {S B R : Type 0} → Shared S B R → Controller S B R → Controller S B R
enter w c = record c { server = w.server; limiters = w.limiters }

abbrev pub leave : {S B R : Type 0} → Controller S B R → Shared S B R
leave c = record { server = c.server; limiters = c.limiters }

-- The part of the slice that the loop has not reached: nil pointers.
abbrev pub nils : {S B R : Type 0} → List (NodeConfig S B R) → List (Option (Controller S B R))
nils [] = []
nils (n ∷ nodes) = none ∷ nils nodes

module _ {S B R : Type 0} (core : Core S) (compile : String → Option R) where
  -- Node.Start, with the controllers and what they share.
  unfoldable pub start_nodes :
      List (NodeConfig S B R)
      → Shared S B R
      → List (Option (Controller S B R)) × Shared S B R × NodesEnd
  start_nodes [] w = ([], w, all_started)
  start_nodes (n ∷ nodes) w = elim n.made [
    | none ↦ (none ∷ nils nodes, w, not_started)
    | some c ↦
        let r = start core compile n.cert_ready n.answers (enter w c) in
        let rest = start_nodes nodes (leave r.0) in
        elim r.1 [
          | started ↦ (some r.0 ∷ rest.0, rest.1, rest.2)
          | failed e ↦ (some r.0 ∷ nils nodes, leave r.0, not_started)
          | crashed ↦ (some r.0 ∷ nils nodes, leave r.0, broken)
        ]
  ]

  -- Node.Close: false for a panic, at an error or a nil controller.
  unfoldable pub close_nodes : List (Option (Controller S B R)) → Shared S B R → Shared S B R × Bool
  close_nodes [] w = (w, true)
  close_nodes (none ∷ controllers) w = (w, false)
  close_nodes (some c ∷ controllers) w =
      let closed = close_node core compile true (enter w c) in
      let rest = close_nodes controllers (leave closed.0) in
      if closed.1 then rest else (leave closed.0, false)
