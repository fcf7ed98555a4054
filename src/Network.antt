-- ===== src/Network.antt =====
-- The module docker_network:
-- collections/ansible_collections/community/docker/plugins/modules/docker_network.py.
pub mod Config
pub mod Manager
