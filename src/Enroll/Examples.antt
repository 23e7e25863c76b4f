-- ===== src/Enroll/Examples.antt =====
-- A hello for another's device, at a concrete hub; the stand-in for the hash leaves a text as it is.
use haive_control.Prelude.{
  ◌≡◌, refl, sym, ◌∙◌, true, false, none, some, [], ◌∷◌, Text, text, lookup, list_beq, ==_iff, ◌==◌,
  nat_eq, list_eq, starts_with,
}
use haive_control.ConstantTime.{ct_eq}
use haive_control.Enroll.Tunnels.{Tunnel, auth_hash}
use haive_control.Enroll.Secrets.{verify, owner_of, is_device_secret}
use haive_control.Enroll.Hello.{Hub, Incoming, Around, hello_ep}
use haive_control.Enroll.Takeover.{hello_ep-kept}

abbrev same : Text → Text
same s = s

abbrev tunnel : Tunnel
tunnel = record { queue = []; pending = []; next_id = 1; auth = text "hdev_77" }

abbrev hub : Hub
hub = record {
  registry = (text "hc-1", tunnel) ∷ [];
  secrets = (text "hc-1", record { hash = text "hdev_77"; owner = text "ann"; issued = 5 }) ∷ [];
}

abbrev incoming : Incoming
incoming = record {
  tok = text "htok_b";
  rid = text "hc-1";
  relay_id = some (text "hc-1");
  asks_secret = true;
}

abbrev around : Around
around = record {
  token_owner = some (text "bob");
  authed = true;
  owner_override = none;
  row_owner = none;
  dissolving = false;
  random = some (text "00");
  written = true;
  now = 9;
}

bob-ann : text "bob" ≡ text "ann" → ⊥
unfolding list_beq
bob-ann e = let k : (text "bob" == text "ann") ≡ true = (==_iff (text "bob") (text "ann")).1 e in cc

strangers :
    (o : Text) → some (text "bob") ≡ some o → owner_of hub.secrets (text "hc-1") ≡ some o → ⊥
unfolding owner_of list_beq
strangers o h k =
    let held : some (text "ann") ≡ some o = k in
    let bob : text "bob" ≡ o = cc in let ann : text "ann" ≡ o = cc in bob-ann (bob ∙ sym ann)

hello_ep-kept_example :
    lookup (text "hc-1") (hello_ep same hub incoming around).after.registry ≡ some tunnel
unfolding ct_eq auth_hash verify is_device_secret starts_with list_beq
hello_ep-kept_example =
    hello_ep-kept same hub incoming around (text "hc-1") tunnel refl refl refl strangers
