-- ===== src/Listeners/Examples.antt =====
-- Listeners at which the theorems apply (ADBTestCE/adb/adb.cpp).
use adbtest_ce.Prelude.{List, [], codes, inl, inr, none, refl, some, ◌∷◌}
use adbtest_ce.Listeners.{Alistener, install_listener, is_special, new_listener}
use adbtest_ce.Listeners.Installed.{Installs, install_listener-Installs}

-- The port of the smart sockets, and one that is forwarded.
abbrev server_port : Alistener
server_port = new_listener (codes "tcp:5037") (codes "*smartsocket*") none 3

abbrev forwarded_port : Alistener
forwarded_port = new_listener (codes "tcp:8000") (codes "tcp:80") (some 7) 4

abbrev ports : List Alistener
ports = server_port ∷ forwarded_port ∷ []

install_listener-Installs_example :
    Installs
      (some 5)
      (codes "tcp:8000")
      (codes "tcp:81")
      9
      ports
      (install_listener (some 5) (codes "tcp:8000") (codes "tcp:81") (some 9) ports)
unfolding is_special
install_listener-Installs_example =
    install_listener-Installs (some 5) (codes "tcp:8000") (codes "tcp:81") 9 ports
      ((refl, inl refl), ((refl, inr (7, refl)), record {}))
