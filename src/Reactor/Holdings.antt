-- ===== src/Reactor/Holdings.antt =====
-- src/smtp_reactor_linux.c, smtp_reactor_unix.c, smtp_reactor_windows.c: what a creation takes.
use smtpc_cli.Reactor.Iocp
use smtpc_cli.Reactor.Iocp.{winsock, port_handle, probe_socket, entry_memory, load_connect_ex}
use smtpc_cli.Reactor.{Resource, reactor_memory, kernel_fd, event_memory, Supply, create, destroy}
use smtpc_cli.Common.Ledger.{times_acquired, times_released}
use smtpc_cli.Common.{arith, ℕ, Bool, true, false, ◌++◌, ◌≡◌}

abbrev pub same_resource : Resource → Resource → Bool
same_resource reactor_memory reactor_memory = true
same_resource kernel_fd kernel_fd = true
same_resource event_memory event_memory = true
same_resource _ _ = false

abbrev pub same_windows_resource : Iocp.Resource → Iocp.Resource → Bool
same_windows_resource winsock winsock = true
same_windows_resource Iocp.reactor_memory Iocp.reactor_memory = true
same_windows_resource port_handle port_handle = true
same_windows_resource probe_socket probe_socket = true
same_windows_resource entry_memory entry_memory = true
same_windows_resource _ _ = false

balanced :
    (supply : Supply) (size : ℕ) (r : Resource)
    → times_acquired same_resource r (create supply size).2
      ≡ times_released same_resource r ((create supply size).2 ++ destroy (create supply size).1)
unfolding create destroy
balanced supply size reactor_memory = ground arith
balanced supply size kernel_fd = ground arith
balanced supply size event_memory = ground arith

windows_balanced :
    (supply : Iocp.Supply) (size : ℕ) (r : Iocp.Resource)
    → times_acquired same_windows_resource r (Iocp.create supply size).2
      ≡ times_released same_windows_resource r
          ((Iocp.create supply size).2 ++ Iocp.destroy (Iocp.create supply size).1)
unfolding Iocp.create Iocp.create_entries Iocp.destroy load_connect_ex
windows_balanced supply size winsock = ground arith
windows_balanced supply size Iocp.reactor_memory = ground arith
windows_balanced supply size port_handle = ground arith
windows_balanced supply size probe_socket = ground arith
windows_balanced supply size entry_memory = ground arith

-- x
pub destroy-create :
    (supply : Supply) (windows : Iocp.Supply) (size : ℕ) (r : Resource) (s : Iocp.Resource)
    → (times_acquired same_resource r (create supply size).2
        ≡ times_released same_resource r ((create supply size).2 ++ destroy (create supply size).1))
      × (times_acquired same_windows_resource s (Iocp.create windows size).2
          ≡ times_released same_windows_resource s
              ((Iocp.create windows size).2 ++ Iocp.destroy (Iocp.create windows size).1))
destroy-create supply windows size r s = (balanced supply size r, windows_balanced windows size s)
