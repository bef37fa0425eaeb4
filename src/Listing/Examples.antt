-- ===== src/Listing/Examples.antt =====
-- Listings at which the theorems of Listing/Fits apply.
use adbtest_ce.Prelude.{
  [], ap, append-nil, arith, codes, length, none, refl, some, true, ◌++◌, ◌∙◌, ◌∷◌, ◌≡◌,
}
use adbtest_ce.Smart.{transport_usb}
use adbtest_ce.Transport.{Atransport, cs_device}
use adbtest_ce.Listing.{list_transports, listed_serial, statename, transport_line, without_last}
use adbtest_ce.Listing.Fits.{list_transports-cut, listing}

abbrev pixel : Atransport
pixel = record {
  connection_state = cs_device;
  online = true;
  ttype = transport_usb;
  serial = some (codes "01");
  product = none;
  model = none;
  device = none;
  devpath = none;
}

pixel_line : transport_line pixel ≡ 48 ∷ 49 ∷ 9 ∷ (codes "device" ++ 10 ∷ [])
unfolding transport_line listed_serial statename
pixel_line = refl

one_line : length (transport_line pixel) ≡ 10
one_line = ap length pixel_line

one_listing : length (listing (pixel ∷ [])) ≡ 10
one_listing = ap length (append-nil (transport_line pixel)) ∙ one_line

list_transports-cut_example :
    list_transports 16 (pixel ∷ pixel ∷ []) ≡ some (without_last (listing (pixel ∷ [])))
list_transports-cut_example =
    list_transports-cut 16 (pixel ∷ []) pixel (omega (arith, one_listing))
      (omega (arith, one_listing, one_line)) (λ e. omega (arith, one_listing, ap length e))
