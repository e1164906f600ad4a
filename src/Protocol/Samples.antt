-- ===== src/Protocol/Samples.antt =====
-- A way to write the messages of proto/mip.proto down, for the tests.
use v_net.Base.{ℕ, Option, some, List, [], ◌∷◌, ◌++◌, ◌≡◌, refl, ap, length, take, drop}
use v_net.Protocol.Dispatch.{Coder}
use v_net.Protocol.Mip.{
  Coders, PacketSwitchMip, PacketAgentMip, PacketConnectToSwitch, PacketAgentConnectionToken,
  PacketAuthConnectToSwitch, PacketConnectionAccepted, PacketAgentMrp,
}

pub take-length : (xs ys : List ℕ) → take (length xs) (xs ++ ys) ≡ xs
take-length [] ys = refl
take-length (x ∷ xs) ys = ap (λ l. x ∷ l) (take-length xs ys)

pub drop-length : (xs ys : List ℕ) → drop (length xs) (xs ++ ys) ≡ ys
drop-length [] ys = refl
drop-length (x ∷ xs) ys = drop-length xs ys

abbrev parse_switch_mip : List ℕ → Option PacketSwitchMip
parse_switch_mip (port ∷ n ∷ k ∷ bytes) = some (record {
  name = take n bytes;
  auth_key = take k (drop n bytes);
  network = drop k (drop n bytes);
  port = port;
})
parse_switch_mip bytes = some (record { name = []; auth_key = []; network = []; port = 0 })

abbrev switch_mip_sample : Coder PacketSwitchMip
switch_mip_sample = record {
  serialize = λ m. m.port ∷ length m.name ∷ length m.auth_key ∷ m.name ++ (m.auth_key ++ m.network);
  parse = parse_switch_mip;
  parse-serialize = λ m.
      rw
        (
          take-length m.name (m.auth_key ++ m.network),
          drop-length m.name (m.auth_key ++ m.network),
          take-length m.auth_key m.network,
          drop-length m.auth_key m.network,
        )
        refl;
  cleared = record { name = []; auth_key = []; network = []; port = 0 };
  parse-nil = refl;
}

abbrev parse_agent_mip : List ℕ → Option PacketAgentMip
parse_agent_mip (n ∷ k ∷ bytes) = some (record {
  name = take n bytes;
  auth_key = take k (drop n bytes);
  network = drop k (drop n bytes);
})
parse_agent_mip bytes = some (record { name = []; auth_key = []; network = [] })

abbrev agent_mip_sample : Coder PacketAgentMip
agent_mip_sample = record {
  serialize = λ m. length m.name ∷ length m.auth_key ∷ m.name ++ (m.auth_key ++ m.network);
  parse = parse_agent_mip;
  parse-serialize = λ m.
      rw
        (
          take-length m.name (m.auth_key ++ m.network),
          drop-length m.name (m.auth_key ++ m.network),
          take-length m.auth_key m.network,
          drop-length m.auth_key m.network,
        )
        refl;
  cleared = record { name = []; auth_key = []; network = [] };
  parse-nil = refl;
}

abbrev parse_connect_to_switch : List ℕ → Option PacketConnectToSwitch
parse_connect_to_switch (ipv4 ∷ token ∷ port ∷ name) = some (record {
  switch_name = name;
  switch_ipv4 = ipv4;
  connection_token = token;
  switch_port = port;
})
parse_connect_to_switch bytes =
    some (record { switch_name = []; switch_ipv4 = 0; connection_token = 0; switch_port = 0 })

abbrev connect_to_switch_sample : Coder PacketConnectToSwitch
connect_to_switch_sample = record {
  serialize = λ m. m.switch_ipv4 ∷ m.connection_token ∷ m.switch_port ∷ m.switch_name;
  parse = parse_connect_to_switch;
  parse-serialize = λ m. refl;
  cleared = record { switch_name = []; switch_ipv4 = 0; connection_token = 0; switch_port = 0 };
  parse-nil = refl;
}

abbrev parse_agent_connection_token : List ℕ → Option PacketAgentConnectionToken
parse_agent_connection_token [] = some (record { agent_name = []; connection_token = 0 })
parse_agent_connection_token (token ∷ name) =
    some (record { agent_name = name; connection_token = token })

abbrev agent_connection_token_sample : Coder PacketAgentConnectionToken
agent_connection_token_sample = record {
  serialize = λ m. m.connection_token ∷ m.agent_name;
  parse = parse_agent_connection_token;
  parse-serialize = λ m. refl;
  cleared = record { agent_name = []; connection_token = 0 };
  parse-nil = refl;
}

abbrev parse_auth_connect_to_switch : List ℕ → Option PacketAuthConnectToSwitch
parse_auth_connect_to_switch [] = some (record { connection_token = 0 })
parse_auth_connect_to_switch (token ∷ bytes) = some (record { connection_token = token })

abbrev auth_connect_to_switch_sample : Coder PacketAuthConnectToSwitch
auth_connect_to_switch_sample = record {
  serialize = λ m. m.connection_token ∷ [];
  parse = parse_auth_connect_to_switch;
  parse-serialize = λ m. refl;
  cleared = record { connection_token = 0 };
  parse-nil = refl;
}

abbrev connection_accepted_sample : Coder PacketConnectionAccepted
connection_accepted_sample = record {
  serialize = λ m. [];
  parse = λ bytes. some tt;
  parse-serialize = λ m. refl;
  cleared = tt;
  parse-nil = refl;
}

abbrev parse_agent_mrp : List ℕ → Option PacketAgentMrp
parse_agent_mrp [] = some (record { name = []; auth_key = [] })
parse_agent_mrp (n ∷ bytes) = some (record { name = take n bytes; auth_key = drop n bytes })

abbrev agent_mrp_sample : Coder PacketAgentMrp
agent_mrp_sample = record {
  serialize = λ m. length m.name ∷ m.name ++ m.auth_key;
  parse = parse_agent_mrp;
  parse-serialize = λ m. rw (take-length m.name m.auth_key, drop-length m.name m.auth_key) refl;
  cleared = record { name = []; auth_key = [] };
  parse-nil = refl;
}

abbrev pub sample_coders : Coders
sample_coders = record {
  switch_mip = switch_mip_sample;
  agent_mip = agent_mip_sample;
  connect_to_switch = connect_to_switch_sample;
  agent_connection_token = agent_connection_token_sample;
  auth_connect_to_switch = auth_connect_to_switch_sample;
  connection_accepted = connection_accepted_sample;
  agent_mrp = agent_mrp_sample;
}
