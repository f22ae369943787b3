-- ===== src/Names/Registration.antt =====
-- What `register_rv` sends, and to which servers.
use antop.Base.{ℕ, List, [], ◌++◌, map, if◌then◌else◌}
use antop.Addr.{Addr}
use antop.Node.{Node, RvCtrlPkt, Outside, Effect}

-- A registration of a name for an address. The name is copied without its 0, so that bytes follow
-- it that were never written.
abbrev pub registration : Outside → Addr → List ℕ → RvCtrlPkt
registration out addr name = record (out.fresh_rv) {
  type_field = 9;
  prim_addr = addr;
  univ_addr = name ++ out.name_tail;
}

-- The registrations of the primary address, and those of the secondary one if there is one.
abbrev pub registrations : Outside → Node → List Addr → List Effect
registrations out s servers =
    map (λ (a : Addr). Effect.send_rv (registration out s.prim_addr s.univ_addr) a 1) servers
    ++ (if s.sec_addr_flag
        then map (λ (a : Addr). Effect.send_rv_short (registration out s.sec_addr s.univ_addr) a)
            servers
        else [])
