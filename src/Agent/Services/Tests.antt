-- ===== src/Agent/Services/Tests.antt =====
-- Configurations of agent/agent.go.
use percona_agent.Prelude.{String, ◌≡◌, refl, inr, none, []}
use percona_agent.Agent.{Config}
use percona_agent.Agent.Services.{ApiConnector, Agent, check_config, fill_config, load_config}

abbrev stored : Config
stored = record {
  agent_uuid = "u";
  api_hostname = "";
  api_key = "k";
  keepalive = 0;
  links = [];
  pid_file = "";
}

abbrev loaded : Config
loaded = record {
  agent_uuid = "u";
  api_hostname = "cloud-api.percona.com";
  api_key = "k";
  keepalive = 76;
  links = [];
  pid_file = "percona-agent.pid";
}

loads : load_config stored ≡ inr loaded
unfolding load_config check_config fill_config
loads = refl

-- An API that accepts every key, and keeps host name and key.
abbrev accepting : ApiConnector (String × String)
accepting = record {
  connect = λ host key uuid p. (none, (host, key));
  hostname = λ p. p.0;
  api_key = λ p. p.1;
  agent_uuid = λ p. "u";
}

abbrev agent : Agent Unit (String × String)
agent = record {
  services = [];
  connector = accepting;
  service_state = tt;
  api = ("cloud-api.percona.com", "k");
  config = loaded;
  disconnects = 0;
  written = none;
}

abbrev asked : Config
asked = record stored { api_key = "k2"; api_hostname = "localhost" }
