-- ===== src/Lib.antt =====
-- Verification of the SWAP-IT registry module, an OPC UA server on which agents register, which copies
-- their nodes into its own address space, keeps the copies up to date, and finds the agents that have
-- the capabilities a product needs.
--
-- The parts of the program, and the files that model them:
--
--   * A call of `filter_agents` (src/registry_module_callback_functions.c) walks to the object of a
--     service, reads the capabilities of the agents below it and compares them with the requested
--     values. Matching.antt has the table of operators (src/registry_module_capability_matching_functions.c),
--     Filter/Find.antt the walk, Filter/Capabilities.antt the reading of the items, Filter/Suitable.antt
--     the loops that compare, Filter.antt the method.
--   * The server thread and one client thread for each agent share two queues under a mutex
--     (src/registry_module_synchronization.c, src/registry_module_client_interface.c,
--     `syncRegisteredAgents` of src/registry_module_internal.c). Sync.antt has the queues and the
--     operations, one definition for each section under the mutex; Sync/Events.antt the interleavings.
--   * Registration and removal of an agent (src/registry_module_register_agent.c,
--     src/registry_module_callback_functions.c): Agents.antt has the arrays of `UA_agent_list`,
--     Address.antt the texts built from an address, in the buffers of Buffer.antt, Register.antt the nodes
--     that a registration adds, Registration.antt the method `add_agent_to_registry` with all that it
--     calls, Unregister.antt the method `remove_agent_from_registry` with the walk that deletes nodes
--     (Register/Found.antt, Unregister/Filtered.antt and Unregister/Emptied.antt join these with the filter).
--   * The configuration of an agent (src/registry_module_config_parse.c): Config.antt has its data and the
--     parser, Config/Service.antt the object of a service, Config/Load.antt the loading, Config/Tokens.antt
--     what a well-formed document is.
--   * The copying of an agent's nodes (src/registry_module_node_iterator.c,
--     src/registry_module_namespace_solver.c, `readRegisteredAgentNS` of
--     src/registry_module_internal.c): ReadAgent.antt connects to the agent and follows the paths of its
--     entry nodes, which NodePath.antt puts together and takes apart; NodeIterator.antt has the agent and
--     the server, NodeIterator/Copy.antt the recursion; Namespace.antt maps the indices of namespaces,
--     Values.antt writes values, Search.antt finds types and variables. ReadAgent.antt ends with the
--     monitored items, with which the thread of an agent goes into the loop of Sync.antt.
--   * A call of a copied method (`methodCallback` of src/registry_module_synchronization.c): Method.antt;
--     a write to a copied variable (`onWrite`): Sync/OnWrite.antt.
--   * The start (src/registry_module_init.c): Init.antt, and Aggregation.antt for `initAggregationServerNS`,
--     which nothing calls. main.c, with its signals, its loop and the exit: Main.antt. The shutdown
--     (src/registry_module_clear.c): Clear.antt, and Clear/Contexts.antt for the contexts of nodes.
--
-- Ua.antt has what the code takes from open62541: identifiers, names, references, and the traversal of
-- the references of a node. The library is not part of the repository: the address space, its reads,
-- writes, additions and deletions of nodes, the floating point numbers, the data types and the arrays of
-- namespaces are parameters, and so are an agent, as a client reads it, and the parser cj5.
-- Prelude.antt has the shared helpers, Examples.antt concrete inputs.
--
-- Conventions:
--
--   * `none` stands for undefined behaviour of the C code, such as a read behind an array, through a null
--     pointer, or of an uninitialised variable. Buffer.antt records a write past the end of a buffer
--     instead, and goes on with the text that was meant.
--   * A text is the list of its bytes. `UA_String` data that the code treats as a C string is taken to
--     end where its length says, and a C string to have no NUL among its bytes.
--   * Allocations succeed. Reads of a node that was just browsed succeed, but for Unregister.antt, where
--     a node may be gone.
--   * The callbacks of a traversal all return `UA_STATUSCODE_GOOD`, so that it goes through all
--     references, those at its start.
--   * The fuel of the walks by a list of names is the length of that list, 3 in Filter and 4 in
--     Unregister: each recursive call raises `ctr`, and at `max_length` the code returns. The searches of
--     Search.antt and ReadAgent.antt have no bound in the source: fuel stands for the depth of the address
--     space. Nor have the recursions of NodeIterator/Copy.antt and Clear/Contexts.antt: there the fuel
--     bounds how many nodes lie below one another, and to run out of it is undefined.
--   * `size_t` is a number below 2 ^ 64 and `UA_UInt16` one below 2 ^ 16, with the wrap-around written
--     out where the code's arithmetic can reach it.
--   * Structs are values. The pointers that a removal copies with the entry of an agent are known by their
--     addresses where they are freed, in Clear.antt: a second freeing is undefined. Until then two such
--     entries are synchronised each on its own.
--
-- Not modelled: the limits and names in the server's own configuration, and the copies of other projects'
-- libraries under deps. The mutex is taken to exclude, the client threads to rest between the last
-- synchronisation and the clearing, and the printing is left out, but for the array that it copies tokens
-- to.
pub mod Prelude
pub mod Ua
pub mod Matching
pub mod Filter
pub mod Sync
pub mod Buffer
pub mod Address
pub mod Agents
pub mod Register
pub mod Unregister
pub mod Namespace
pub mod Values
pub mod Search
pub mod NodePath
pub mod Method
pub mod NodeIterator
pub mod Config
pub mod ReadAgent
pub mod Registration
pub mod Aggregation
pub mod Init
pub mod Main
pub mod Clear
pub mod Examples
