-- ===== src/Lib.antt =====
-- cloud-provider-kind: load balancers for clusters of kind.
--
-- The program runs one controller. It lists the kind clusters in rounds; each listed cluster gets
-- a client, a cloud and the managers of k8s.io/cloud-provider, which call the cloud. The cloud
-- makes a container with envoy for each service of type LoadBalancer, hands it a configuration,
-- and on some platforms opens tunnels to it. When a cluster is gone its containers are removed by
-- their labels.
--
-- cmd/app.go, Main with the flags, the platform and the user: Cmd, with Cmd/Connectivity
-- and Cmd/Decides.
-- pkg/config, pkg/constants: Config. The Kubernetes types that are used: Api.
-- pkg/container/container.go: Container/Commands (the calls), Container/Inspect (IPs, PortMaps,
-- ListByLabel, GetLabelValue).
-- pkg/loadbalancer/server.go: LoadBalancer/Names (names and labels), LoadBalancer/Server with
-- Create (createLoadBalancer).
-- pkg/loadbalancer/proxy.go: LoadBalancer/Proxy/Config (generateConfig), Template (the two
-- templates, line by line), Update (proxyUpdateLoadBalancer and waitLoadBalancerReady).
-- pkg/loadbalancer/tunnel.go: LoadBalancer/Tunnel, with Shared (the goroutines that call
-- setupTunnels and removeTunnels at once, and the mutex) and Forward (the goroutines of Start and
-- handleConnection). pkg/loadbalancer/address_*.go: LoadBalancer/Address.
-- pkg/provider: Provider.
-- pkg/controller/controller.go: Controller/Connect (getKubeClient, startCloudControllerManager),
-- Controller/Cancel (cancelFn), Controller/Rounds (Run and cleanup), Controller/System (the rounds
-- and the managers that they have started, which call their clouds).
-- Base has shared types and lemmas, and the functions of Go's standard library that the program
-- computes with: SHA-256, base 32, decimal numbers, strings and file paths.
--
-- World has the calls that leave the process: commands, files, sockets, HTTP, and the libraries of
-- kind and Kubernetes. An environment answers each call by the calls before it, and is a parameter
-- throughout; so are the parsing of addresses and of JSON, and the order in which a map is
-- visited, of which only that it is a permutation of the keys is known. A function of the program
-- takes the environment and the world, and gives its result and the world after it; an error is a
-- value. What a theorem asks of the environment is a record of named laws, each with an instance
-- in Tests: Runtime (which containers run), Files (what the commands do to the files of a
-- container), Labels (which containers have the labels of the program), Sockets (an address that
-- is in use), Loopback (an address that is on the local interface), Context (a context that is
-- done stays done).
--
-- Loops over lists are recursive in the list. A poll with a timeout tries its condition as often
-- as the environment allows, and fails after that as the timeout does. Run goes on for as many
-- rounds as are asked for, and its theorem holds for any number. The digits of a number have the
-- number itself for fuel, which Base/Decimal shows to be enough.
--
-- Goroutines are step relations. In Controller/System a call of a manager on its cloud, a round of
-- Run and cleanup are one step each, in any order; a call uses the cloud as the calls before it
-- left it. In LoadBalancer/Tunnel/Shared setupTunnels and removeTunnels are small steps of any
-- number of goroutines, which the mutex orders; elsewhere each of the two is one step. In
-- LoadBalancer/Tunnel/Forward the loop that accepts connections and each step of handleConnection
-- interleave in any order, and each io.Copy is one call that ends. What a chain of calls leaves
-- true is proved with Keeps and Leads of World/Monad.
--
-- Not modelled: but for the tunnel manager, the steps inside a call of a manager do not interleave
-- with those of another call; the bytes that io.Copy moves; when the managers call what (any call
-- is possible at any time).
-- Logging, the verbosity, the reading of flags, metrics and informers are left out; a signal is
-- seen only as the context that it makes done.
pub mod Base
pub mod Config
pub mod World
pub mod Container
pub mod Api
pub mod LoadBalancer
pub mod Provider
pub mod Controller
pub mod Cmd
pub mod Tests
