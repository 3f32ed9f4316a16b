-- ===== src/Connections/Isolation.antt =====
-- What one tenant does leaves the connections of the others alone.
use cloud_sentinel_ai.Connections.{aws_columns, azure_columns, gcp_columns}
