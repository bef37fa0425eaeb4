-- ===== src/Banner/Examples.antt =====
-- Banners at which the theorems on `parse_banner` apply.
use adbtest_ce.Prelude.{[], arith, codes, false, none, some, ◌≡◌}
use adbtest_ce.Smart.{transport_usb}
use adbtest_ce.Transport.{Atransport, cs_offline}
use adbtest_ce.Banner.{fill_connect_data, parse_banner, set_state}
use adbtest_ce.Banner.RoundTrip.{introduced, parse_banner-fill_connect_data}

abbrev fresh_transport : Atransport
fresh_transport = record {
  connection_state = cs_offline;
  online = false;
  ttype = transport_usb;
  serial = some (codes "0123");
  product = none;
  model = none;
  device = none;
  devpath = none;
}

parse_banner-fill_connect_data_example :
    parse_banner
      (fill_connect_data (codes "device") (codes "soju") (codes "Nexus S") [])
      fresh_transport
    ≡ set_state (codes "device") (introduced (codes "soju") (codes "Nexus S") [] fresh_transport)
parse_banner-fill_connect_data_example =
    parse_banner-fill_connect_data (codes "device") (codes "soju") (codes "Nexus S") []
      fresh_transport (ground arith) (ground arith) (ground arith) tt
