-- ===== src/Config.antt =====
-- core/application/config/env_helpers.py: settings from the environment and from core.json.
pub mod Env
pub mod Ports
