-- ===== src/Util.antt =====
-- Helpers shared by the modules:
-- collections/ansible_collections/community/docker/plugins/module_utils/_util.py.
pub mod Compare
pub mod Differences
pub mod Health
