-- ===== src/Discovery/Registry/Examples.antt =====
-- A concrete instance in common/discovery/static/registry.go.
use game01_server.Prelude.{◌≡◌, [], ◌∷◌}
use game01_server.Prelude.Lists.{All}
use game01_server.Discovery.Registry.{Registration, new_registry, register_item, discover}
use game01_server.Discovery.Registry.Lookup.{Holds, register_item-discover}

abbrev lobby : Registration
lobby = record {
  service = "lobby";
  instance_name = "l1";
  address = "10.0.0.1:90";
  version = "1";
  weight = 1;
  zone = "a";
}

abbrev moved : Registration
moved = record lobby { address = "10.0.0.2:90" }

register_item-discover_example :
    Holds moved (discover (register_item (new_registry (lobby ∷ [])) moved) "lobby")
    × All
        (λ x. x.service ≡ "lobby")
        (discover (register_item (new_registry (lobby ∷ [])) moved) "lobby")
register_item-discover_example = register_item-discover (new_registry (lobby ∷ [])) moved
