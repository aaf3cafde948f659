-- ===== src/Conductor.antt =====
-- pkg/gears/native/conductor: the destination trees that choose an output port (tree.go), and the
-- routing table (route.go and `matchRoute` of gear.go).
-- One pick sees one answer about each port: `available` and `load` are functions that do not change
-- while it runs. The atomic counter `rr` of a node is a cell of a store, named by its number, which
-- one pick after the other reads and writes; the tree itself does not change after it is parsed.
pub mod Tree
pub mod Parse
pub mod Routes
pub mod Gear
