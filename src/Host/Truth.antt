-- ===== src/Host/Truth.antt =====
-- What is true of the server's state, independently of how `acquire_one_transport` and
-- `list_transports` (ADBTestCE/adb/transport.cpp) find it.
use adbtest_ce.Prelude.{
  Bytes, List, Option, [], ap, arith, codes, inl, inr, length, none, refl, some, sym, ◌<◌, ◌∙◌, ◌∷◌,
  ◌≡◌, ◌≢◌, ◌⊎◌,
}
use adbtest_ce.Wire.{hex4, hex_digit}
use adbtest_ce.Smart.{TransportType}
use adbtest_ce.Transport.{
  Atransport, Attempt, ConnectionState, acquired, attempt, cs_bootloader, cs_device, cs_host,
  cs_noperm, cs_offline, cs_recovery, cs_sideload, refused, wrong_state,
}
use adbtest_ce.Transport.Acquire.{attempt-cases, attempt_iff, matches, only}
use adbtest_ce.Listing.{list_transports}
use adbtest_ce.Listing.Fits.{list_transports-fit, listing}
use adbtest_ce.Host.{Host, connection_state_name}

pub data Query : Type 0 where
  ask_version ask_state ask_serialno ask_devpath ask_devices : Query

abbrev pub known : Option Bytes → Bytes
known none = codes "unknown"
known (some x) = x

-- Something of the transport that one try gives.
abbrev pub said : (Atransport → Bytes) → Attempt → Bytes
said f (acquired t) = f t
said f (refused e b) = codes "unknown"

abbrev pub of_transport : (Atransport → Bytes) → TransportType → Option Bytes → Host → Bytes
of_transport f ttype serial h = said f (attempt none ttype serial h.transports)

-- What the functions of the server say.
abbrev pub server_text : Query → TransportType → Option Bytes → Host → Option Bytes
server_text ask_version ttype serial h = some (hex4 31)
server_text ask_state ttype serial h =
    some (of_transport (λ t. connection_state_name t.connection_state) ttype serial h)
server_text ask_serialno ttype serial h = some (of_transport (λ t. known t.serial) ttype serial h)
server_text ask_devpath ttype serial h = some (of_transport (λ t. known t.devpath) ttype serial h)
server_text ask_devices ttype serial h = list_transports 4096 h.transports

-- The names of the states.
abbrev pub state_text : ConnectionState → Bytes
state_text cs_offline = codes "offline"
state_text cs_bootloader = codes "bootloader"
state_text cs_device = codes "device"
state_text cs_host = codes "unknown"
state_text cs_recovery = codes "unknown"
state_text cs_noperm = codes "unknown"
state_text cs_sideload = codes "unknown"

abbrev pub awake_at : ConnectionState → Atransport → Option Atransport
awake_at cs_offline t = none
awake_at _ t = some t

abbrev pub awake : Option Atransport → Option Atransport
awake none = none
awake (some t) = awake_at t.connection_state t

-- The only transport of the list that the request may mean, unless that is offline.
abbrev pub meant : TransportType → Option Bytes → Host → Option Atransport
meant ttype serial h = awake (only (matches ttype serial h.transports))

abbrev pub told : (Atransport → Bytes) → Option Atransport → Bytes
told f none = codes "unknown"
told f (some t) = f t

-- The version; the state, the serial number or the path of the transport that is meant; and a line for
-- each transport.
abbrev pub truth : Query → TransportType → Option Bytes → Host → Bytes
truth ask_version ttype serial h = codes "001f"
truth ask_state ttype serial h = told (λ t. state_text t.connection_state) (meant ttype serial h)
truth ask_serialno ttype serial h = told (λ t. known t.serial) (meant ttype serial h)
truth ask_devpath ttype serial h = told (λ t. known t.devpath) (meant ttype serial h)
truth ask_devices ttype serial h = listing h.transports

state_name_text : (c : ConnectionState) → connection_state_name c ≡ state_text c
unfolding connection_state_name
state_name_text cs_offline = refl
state_name_text cs_bootloader = refl
state_name_text cs_device = refl
state_name_text cs_host = refl
state_name_text cs_recovery = refl
state_name_text cs_noperm = refl
state_name_text cs_sideload = refl

awake_ready : (c : ConnectionState) (t : Atransport) → c ≢ cs_offline → awake_at c t ≡ some t
awake_ready cs_offline t h = absurd (h refl)
awake_ready cs_bootloader t h = refl
awake_ready cs_device t h = refl
awake_ready cs_host t h = refl
awake_ready cs_recovery t h = refl
awake_ready cs_noperm t h = refl
awake_ready cs_sideload t h = refl

awake_asleep :
    (t : Atransport) (c : ConnectionState)
    → t.connection_state ≡ c
    → (awake_at c t ≡ none) ⊎ (t.connection_state ≢ cs_offline)
awake_asleep t cs_offline e = inl refl
awake_asleep t cs_bootloader e = inr (λ z. cc)
awake_asleep t cs_device e = inr (λ z. cc)
awake_asleep t cs_host e = inr (λ z. cc)
awake_asleep t cs_recovery e = inr (λ z. cc)
awake_asleep t cs_noperm e = inr (λ z. cc)
awake_asleep t cs_sideload e = inr (λ z. cc)

meant_cases :
    (l : List Atransport)
    → (awake (only l) ≡ none)
      ⊎ ((t : Atransport) × (l ≡ t ∷ []) × (t.connection_state ≢ cs_offline))
meant_cases [] = inl refl
meant_cases (t ∷ []) = elim (awake_asleep t t.connection_state refl) [
  | inl off ↦ inl off
  | inr on ↦ inr (t, refl, on)
]
meant_cases (t ∷ u ∷ l) = inl refl

told_same :
    (f g : Atransport → Bytes)
    → ((t : Atransport) → f t ≡ g t)
    → (o : Option Atransport) → told f o ≡ told g o
told_same f g e none = refl
told_same f g e (some t) = e t

-- What one try finds is what is meant.
of_transport-meant :
    (f : Atransport → Bytes) (ttype : TransportType) (serial : Option Bytes) (h : Host)
    → of_transport f ttype serial h ≡ told f (meant ttype serial h)
unfolding wrong_state
of_transport-meant f ttype serial h =
    elim (attempt-cases (attempt none ttype serial h.transports)) [
      | inl (t, e) ↦
          let (m, (up, right)) = (attempt_iff none ttype serial h.transports t).0 e in
          ap (said f) e
          ∙ sym (
              ap (λ l. told f (awake (only l))) m
              ∙ ap (told f) (awake_ready t.connection_state t up))
      | inr (why, b, e) ↦ elim (meant_cases (matches ttype serial h.transports)) [
        | inl asleep ↦ ap (said f) e ∙ sym (ap (told f) asleep)
        | inr (t, m, up) ↦
            let there = (attempt_iff none ttype serial h.transports t).1 (m, (up, refl)) in
            let clash : acquired t ≡ refused why b = sym there ∙ e in cc
      ]
    ]

-- The server's functions say the truth, where it fits the answer.
pub server_text-truth :
    (q : Query) (ttype : TransportType) (serial : Option Bytes) (h : Host)
    → length (truth q ttype serial h) < 4088
    → server_text q ttype serial h ≡ some (truth q ttype serial h)
unfolding hex4 hex_digit
server_text-truth ask_version ttype serial h n = refl
server_text-truth ask_state ttype serial h n = ap some (
    of_transport-meant (λ t. connection_state_name t.connection_state) ttype serial h
    ∙ told_same _ _ (λ t. state_name_text t.connection_state) (meant ttype serial h))
server_text-truth ask_serialno ttype serial h n =
    ap some (of_transport-meant (λ t. known t.serial) ttype serial h)
server_text-truth ask_devpath ttype serial h n =
    ap some (of_transport-meant (λ t. known t.devpath) ttype serial h)
server_text-truth ask_devices ttype serial h n = list_transports-fit 4096 h.transports (omega arith)
