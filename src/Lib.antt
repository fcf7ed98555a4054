-- ===== src/Lib.antt =====
-- A verification library for the Ansible collection `community.docker`, which the repository
-- carries under collections/ansible_collections/community/docker. Paths below are relative to its
-- directory plugins/.
--
-- The collection's modules read the task's parameters, ask the Docker daemon for the object, compare
-- the two, make the calls that are needed and report the differences. The parts and their files:
--   * ImageName.antt: module_utils/_image_name.py. `ImageName` is the dataclass, `parse`,
--     `validate`, `combine`, `normalize`, `get_hostname_and_port` its methods; `is_tag` and
--     `is_digest` are the functions. The patterns are values of the type `Regex` (Regex.antt, with
--     a matcher by derivatives).
--     Texts are lists of code points.
--   * Logfmt.antt: module_utils/_logfmt.py. `Parser` holds the fields of `_Parser` and the
--     variables that the closures of `parse_line` share; each closure is a function of the same
--     name. The loop runs on fuel: two rounds for each character, as one that starts a key is looked
--     at twice, and one more.
--   * Util.antt: module_utils/_util.py. Util/Compare.antt has `compare_generic`,
--     Util/Differences.antt `DifferenceTracker`, Util/Health.antt the durations and health checks.
--     The values of lists, sets and dicts are of a type with an equality.
--   * Volume.antt: modules/docker_volume.py. `Manager` holds the fields of `DockerVolumeManager`
--     that change. The daemon is a parameter, `Daemon`: a state and the four calls that the module
--     makes. A run returns the result and the daemon's state; `client.fail` is an error that ends
--     it. `IsLawful` is what the endpoints for volumes promise: a created volume is listed with the
--     options and labels asked for, as maps, in any order. Volume/Examples has a daemon that keeps
--     the promises and changes the order. `IsPlain` says that the dicts of the parameters have each key once and no
--     option is empty. It uses the tracker of Util/Differences.
--   * Platform.antt: module_utils/_platform.py. `Platform` is `_Platform`, `init` its constructor with
--     the checks, `str` and `platform_eq` its `__str__` and `__eq__`; `parse_platform_string` is cut
--     into the case of one part and that of two or three.
--   * ImagePull.antt: modules/docker_image_pull.py, `ImagePuller.pull` and `image_info`, with the
--     client's calls as the parameter `Registry`. It decides by the strings of Platform.antt whether
--     the image that is there has the platform asked for.
--   * Network.antt: modules/docker_network.py. Network/Config.antt has the parameters, the networks of
--     the API, the IPAM helpers and `has_different_config`; Network/Manager.antt the methods of
--     `DockerNetworkManager` as programs (Prelude/Programs.antt: state and exceptions), with the
--     fields that change in `Session` and the client's calls as the parameter `Daemon`.
--     `wait_until_gone` is the loop that polls after the deletion of a swarm network; its fuel bounds
--     the polls, one for each time that the network is still listed and one more being enough, and
--     `wait` is what the sleep does to the daemon. `IsSteady` says that no call for networks makes
--     or removes a container and that a new network has none, `IsAttachment` what connecting and
--     disconnecting do to the attached containers, which are listed by their names, where a call may
--     name a container by its ID too.
--   * Configs.antt: modules/docker_config.py, with the swarm's calls and sha224 as the parameter
--     `Swarm`. `Session` holds the fields of `ConfigManager` that change. Configs/Ordered.antt has
--     the order that `get_config` brings the versions into.
--   * Swarm.antt: module_utils/_swarm.py, the methods of `AnsibleDockerSwarmClient`, with the SDK's
--     calls as the parameter `Client`. Where the SDK raises `APIError`, the model has its status;
--     `Raised` tells `fail` from an exception that nothing handles.
--   * NodeUpdate.antt: modules/docker_node.py. `Update` holds the local variables of `node_update`;
--     it uses the checks of Swarm.antt.
--   * Plugin.antt: modules/docker_plugin.py. `Session` holds the fields of `DockerPluginManager` that
--     change; the client's calls are the parameter `Daemon`. `split_equals` is the `split("=", 1)`
--     of `parse_options`, whose ValueError is `value_error`.
--   * Container.antt: module_utils/_module_container/module.py, `ContainerManager`, with the interfaces
--     of base.py beside it. Container/Driver.antt has `EngineDriver` (`Driver`: the daemon's state and
--     every call), an option group with its engine (`Group`), and `Session`, the fields that change;
--     floating-point seconds are the parameter `Clock`. Actions, Updates, Images, Networks and
--     Differences have the methods, each whole, Prepare and Manager `present`, `absent` and `run`:
--     `run` is the method up to their return, `run_and_pop` goes on to the pop of the actions.
--     `wait_for_state` (Waiting) runs on fuel, which bounds the looks at the container: one more than
--     it takes until the container is as awaited. Methods are blocks over shut operators
--     (Prelude/Methods.antt), and what a block keeps, ensures or leads to is proved by the rules of
--     Prelude/Hoare.antt.
--   * Service.antt: modules/docker_swarm_service.py. Service/Changes.antt has the tests
--     `has_list_changed`, `has_dict_changed` and the others, Parts and Compare `DockerService.compare`
--     in the order of the code, Manager `DockerServiceManager`; `get_service`, `from_ansible_params`
--     and the calls of the client are the interface `Client`. `Values` says how Python compares
--     values. The retries of `run_safe` are its recursion. Keys that `sorted` uses are texts.
--   * Prelude.antt: equality tests, dicts as association lists in insertion order, texts, errors,
--     programs that change a state and may raise, integers with a sign.
--
-- Each part has children named for what they prove, and Examples with tests and witnesses.
--
-- Not modelled: error messages (errors are constructors), I/O, the argument specs, the copy of the
-- Docker SDK under module_utils/_api, and the collection's other modules. Python's integers are the
-- natural numbers where the code has no negative ones; `int()` of a port has its sign. A digit for
-- `\d` and `int()` is an ASCII digit.
pub mod Prelude
pub mod Regex
pub mod ImageName
pub mod Logfmt
pub mod Util
pub mod Volume
pub mod Platform
pub mod ImagePull
pub mod Network
pub mod Configs
pub mod Swarm
pub mod NodeUpdate
pub mod Plugin
pub mod Container
pub mod Service
