-- ===== src/Conflation.antt =====
-- manager/pkg/statussyncer/transport2db/conflator: the newest bundle of each type and leaf hub is
-- kept until a database worker takes it. `Bundles` is the interface of a bundle, `Heap` the objects
-- that are shared by pointers, `Info` the two kinds of slots, `Units` a conflation unit and
-- `Manager` the map of units with the ready queue.
pub mod Bundles
pub mod Heap
pub mod Info
pub mod Units
pub mod Manager
