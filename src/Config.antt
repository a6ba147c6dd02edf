-- ===== src/Config.antt =====
-- src/configs/server_config.rs and session_config.rs.
use sfu.Prelude.{ℕ, List}
use sfu.Crates.{Crates}
use sfu.Certificate.{Certificate}
use sfu.Types.{SocketAddr}
use sfu.Media.{MediaConfig}
use sfu.Media.Defaults.{default}

module _ (c : Crates) where
  pub record ServerConfig : Type 0 where
    pub certificates : List (Certificate c)
    pub dtls_handshake_config : c.DtlsConfig
    pub sctp_endpoint_config : c.SctpEndpointConfig
    pub sctp_server_config : c.SctpServerConfig
    pub media_config : MediaConfig
    pub idle_timeout : ℕ

  unfoldable pub new_config : List (Certificate c) → ServerConfig
  unfolding default
  new_config certificates = record {
    certificates = certificates;
    dtls_handshake_config = c.dtls_config_default;
    sctp_endpoint_config = c.sctp_endpoint_config_default;
    sctp_server_config = c.sctp_server_config_default;
    media_config = default;
    idle_timeout = c.from_secs 30;
  }

  unfoldable pub with_media_config : MediaConfig → ServerConfig → ServerConfig
  with_media_config media_config self = record self { media_config = media_config }

  unfoldable pub with_sctp_server_config : c.SctpServerConfig → ServerConfig → ServerConfig
  with_sctp_server_config config self = record self { sctp_server_config = config }

  unfoldable pub with_sctp_endpoint_config : c.SctpEndpointConfig → ServerConfig → ServerConfig
  with_sctp_endpoint_config config self = record self { sctp_endpoint_config = config }

  unfoldable pub with_dtls_handshake_config : c.DtlsConfig → ServerConfig → ServerConfig
  with_dtls_handshake_config config self = record self { dtls_handshake_config = config }

  unfoldable pub with_idle_timeout : ℕ → ServerConfig → ServerConfig
  with_idle_timeout idle_timeout self = record self { idle_timeout = idle_timeout }

  pub record SessionConfig : Type 0 where
    pub server_config : ServerConfig
    pub local_addr : SocketAddr
