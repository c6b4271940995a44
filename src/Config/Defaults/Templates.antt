-- ===== src/Config/Defaults/Templates.antt =====
-- The pipeline templates of internal/config/default_config.go, as the source lists them: their
-- events are filled in later.
use meshsync.Common.{String, [], ◌∷◌, ◌++◌}
use meshsync.Config.{PipelineConfig, PipelineConfigs}

abbrev pub default_publishing_subject : String
default_publishing_subject = "meshery.meshsync.core"

abbrev template : String → PipelineConfig
template name = record { name = name; publish_to = default_publishing_subject; events = [] }

abbrev pub core_pipelines : PipelineConfigs
core_pipelines =
    template "namespaces.v1."
    ∷ template "configmaps.v1."
    ∷ template "nodes.v1."
    ∷ template "secrets.v1."
    ∷ template "persistentvolumes.v1."
    ∷ template "persistentvolumeclaims.v1."
    ∷ []

abbrev workload_pipelines : PipelineConfigs
workload_pipelines =
    template "replicasets.v1.apps"
    ∷ template "pods.v1."
    ∷ template "services.v1."
    ∷ template "deployments.v1.apps"
    ∷ template "statefulsets.v1.apps"
    ∷ template "daemonsets.v1.apps"
    ∷ template "ingresses.v1.networking.k8s.io"
    ∷ template "ingressclass.v1.networking.k8s.io"
    ∷ template "endpoints.v1."
    ∷ template "endpointslices.v1.discovery.k8s.io"
    ∷ template "container.v1.core"
    ∷ template "job.v1.batch"
    ∷ template "service.apis"
    ∷ template "csidriver.v1.storage.k8s.io"
    ∷ template "csinode.v1.storage.k8s.io"
    ∷ template "csistoragecapacity.v1.storage.k8s.io"
    ∷ template "volume.v1."
    ∷ template "volumeattributesclass.v1alpha1.storage.k8s.io"
    ∷ template "clustertrustbundle.v1alpha1.certificates.k8s.io"
    ∷ template "controllerrevision.v1.apps"
    ∷ []

abbrev policy_pipelines : PipelineConfigs
policy_pipelines =
    template "customresourcedefinition.v1.apiextensions.k8s.io"
    ∷ template "event.v1.events.k8s.io"
    ∷ template "limitrange.v1."
    ∷ template "horizontalpodautoscaler.v2.autoscaling"
    ∷ template "mutatingwebhookconfiguration.v1.admissionregistration.k8s.io"
    ∷ template "podschedulingcontext.v1alpha2.resource.k8s.io"
    ∷ template "podtemplate.v1."
    ∷ template "poddisruptionbudget.v1.policy"
    ∷ template "priorityclass.v1.scheduling.k8s.io"
    ∷ template "resourceclaim.v1alpha2.resource.k8s.io"
    ∷ template "resourceclaimtemplate.v1alpha2.resource.k8s.io"
    ∷ template "resourceclass.v1alpha2.resource.k8s.io"
    ∷ template "validatingwebhookconfiguration.v1.admissionregistration.k8s.io"
    ∷ template "validatingadmissionpolicy.v1beta1.admissionregistration.k8s.io"
    ∷ template "validatingadmissionpolicybinding.v1beta1.admissionregistration.k8s.io"
    ∷ template "binding.v1."
    ∷ template "certificatesigningrequest.v1.certificates.k8s.io"
    ∷ []

abbrev cluster_pipelines : PipelineConfigs
cluster_pipelines =
    template "clusterrolebinding.v1.rbac.authorization.k8s.io"
    ∷ template "componentstatus.v1."
    ∷ template "flowschema.v1.flowcontrol.apiserver.k8s.io"
    ∷ template "ipaddress.v1alpha1.networking.k8s.io"
    ∷ template "lease.v1.coordination.k8s.io"
    ∷ template "localsubjectaccessreview.v1.authorization.k8s.io"
    ∷ template "node.v1."
    ∷ template "networkpolicy.v1.networking.k8s.io"
    ∷ template "prioritylevelconfiguration.v1.flowcontrol.apiserver.k8s.io"
    ∷ template "resourcequota.v1."
    ∷ template "role.v1.rbac.authorization.k8s.io"
    ∷ template "rolebinding.v1.rbac.authorization.k8s.io"
    ∷ template "runtimeclass.v1.node.k8s.io"
    ∷ template "selfsubjectaccessreview.v1.authorization.k8s.io"
    ∷ template "selfsubjectreview.v1.authentication.k8s.io"
    ∷ []

abbrev review_pipelines : PipelineConfigs
review_pipelines =
    template "selfsubjectrulesreview.v1.authorization.k8s.io"
    ∷ template "serviceaccount.v1."
    ∷ template "servicecidr.v1alpha1.networking.k8s.io"
    ∷ template "storageversion.v1alpha1.internal.apiserver.k8s.io"
    ∷ template "subjectaccessreview.v1.authorization.k8s.io"
    ∷ template "tokenrequest.v1.authentication.k8s.io"
    ∷ template "tokenreview.v1.authentication.k8s.io"
    ∷ template "cronjobs.v1.batch"
    ∷ template "replicationcontrollers.v1."
    ∷ template "storageclasses.v1.storage.k8s.io"
    ∷ template "clusterroles.v1.rbac.authorization.k8s.io"
    ∷ template "volumeattachments.v1.storage.k8s.io"
    ∷ template "apiservices.v1.apiregistration.k8s.io"
    ∷ []

abbrev pub local_pipelines : PipelineConfigs
local_pipelines =
    workload_pipelines ++ (policy_pipelines ++ (cluster_pipelines ++ review_pipelines))
